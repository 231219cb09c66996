-- ===== src/Syscalls/Execute/Refused.antt =====
-- Where `execute` of student-distrib/syscalls.c refuses a command.
use ece_391_linux_kernel_cla.Prelude.{
  ℕ, ◌<◌, ◌≡◌, ◌≢◌, refl, ◌∙◌, Bool, true, false, ◌&&◌, some, negsuc, minus_one, Bytes, IsString,
  ◌==◌, ◌!=◌, all_below, all_below_sound, arith,
}
use ece_391_linux_kernel_cla.Console.Puts.{put_chars, puts-put_chars}
use ece_391_linux_kernel_cla.FileSystem.{Dentry, missing, found, read_dentry_by_name}
use ece_391_linux_kernel_cla.Io.{Device}
use ece_391_linux_kernel_cla.Printf.{percent}
use ece_391_linux_kernel_cla.Printf.Plain.{printf-puts}
use ece_391_linux_kernel_cla.Syscalls.{Kernel}
use ece_391_linux_kernel_cla.Syscalls.Command.{parse_command}
use ece_391_linux_kernel_cla.Syscalls.Slots.{max_processes}
use ece_391_linux_kernel_cla.Syscalls.Execute.{
  returned, Frame, is_program, full_message, refuse, quieted, execute,
}

-- The first word of the command names no file, or one that is no executable.
pub data IsUnknown (fr : Frame) (name : Bytes) (k : Kernel) : Type 0 where
  no_file : read_dentry_by_name k.fs (some name) ≡ some missing → IsUnknown fr name k
  no_program :
      (d : Dentry)
      → read_dentry_by_name k.fs (some name) ≡ some (found d)
      → is_program fr k.fs d.inode_num ≡ false
      → IsUnknown fr name k

-- `execute` of a command whose first word names no file, or a file that is no executable, returns -1
-- and changes nothing but that it leaves interrupts disabled.
pub execute-IsUnknown :
    (device : Device) (fr : Frame) (command name arg_buffer : Bytes) (k : Kernel)
    → parse_command fr.file_name fr.arg_buffer command ≡ some (name, arg_buffer)
    → IsUnknown fr name k
    → execute device fr (some command) k ≡ returned minus_one (quieted k)
unfolding execute
execute-IsUnknown device fr command name arg_buffer k parsed (no_file e) = ground (arith, parsed, e)
execute-IsUnknown device fr command name arg_buffer k parsed (no_program d e f) =
    ground (arith, parsed, e, f)

abbrev message_ok : ℕ → Bool
message_ok i = (full_message i != 0) && (full_message i != percent)

message_ok-parts : (i : ℕ) → i < 32 → (full_message i ≢ 0) × (full_message i ≢ percent)
unfolding all_below
message_ok-parts i lt =
    let h : message_ok i ≡ true = all_below_sound 32 message_ok refl i lt in
    (ground (arith, h), ground (arith, h))

message-IsString : IsString full_message 32
message-IsString = record { body = λ i lt. (message_ok-parts i lt).0; stop = refl }

-- `execute` of a command of at most 31 characters for an executable file, with all six slots
-- taken, prints a message and returns -10. It takes no slot, starts no process, and leaves
-- interrupts disabled.
pub execute-full :
    (device : Device) (fr : Frame) (command name arg_buffer : Bytes) (d : Dentry) (k : Kernel)
    → parse_command fr.file_name fr.arg_buffer command ≡ some (name, arg_buffer)
    → read_dentry_by_name k.fs (some name) ≡ some (found d)
    → is_program fr k.fs d.inode_num ≡ true
    → k.processes ≡ max_processes
    → execute device fr (some command) k
      ≡ returned
          (negsuc 9)
          (record k { console = put_chars 32 0 full_message ((quieted k).console) })
unfolding execute refuse
execute-full device fr command name arg_buffer d k parsed e f full =
    let c = (quieted k).console in
    let out =
      printf-puts fr.words fr.memory fr.conv_buf full_message 32 message-IsString
        (λ i lt. (message_ok-parts i lt).1) (omega arith) c
      ∙ puts-put_chars full_message 32 c message-IsString (omega arith) in
    let full' : (max_processes == k.processes) ≡ true = ground (arith, full) in
    ground (arith, parsed, e, f, full', out)
