-- ===== src/Paging/Reached.antt =====
-- The page tables of student-distrib/paging_handler.c after any sequence of its calls that the kernel
-- makes once paging is on.
use ece_391_linux_kernel_cla.Prelude.{
  ℕ, ◌+◌, ◌*◌, ◌/◌, ◌%◌, ◌≤◌, ◌<◌, ◌≡◌, ◌≢◌, ◌⊎◌, inl, inr, refl, ap, ◌∙◌, true, ◌&&◌, ◌==◌,
  ℕ_discrete, if◌then◌else◌, none, some, u32_mod, bit_or, arith,
}
use ece_391_linux_kernel_cla.Paging.{
  Tables, eight_mb, four_mb, enable_paging, load_new_process, load_video_mem, video,
  v_m_blank_vector,
}
use ece_391_linux_kernel_cla.Paging.Entries.{
  table_entry-page, image_vector-page, enable_paging-directory,
}
use ece_391_linux_kernel_cla.Paging.Translate.{translate, IsPlaced, loaded, video_start}

-- The tables with the image of process `n` loaded: after `enable_paging`, with the rest of the table for
-- video memory not present, as the loader leaves it, and then any number of `load_new_process` with
-- a number up to 7 and of `load_video_mem(0)`.
pub data Reached (page_table v_m_page_table : ℕ) : ℕ → Tables → Type 0 where
  booted :
      (t : Tables) (n : ℕ)
      → ((i : ℕ) → 0 < i → i < 1024 → t.video_table i % 2 ≡ 0)
      → n ≤ 7
      → Reached page_table v_m_page_table n (load_new_process n (enable_paging page_table t))
  switched :
      {n : ℕ} {t : Tables} (m : ℕ)
      → m ≤ 7
      → Reached page_table v_m_page_table n t
      → Reached page_table v_m_page_table m (load_new_process m t)
  mapped :
      {n : ℕ} {t : Tables}
      → Reached page_table v_m_page_table n t
      → Reached page_table v_m_page_table n (load_video_mem v_m_page_table 0 t)

-- What these tables have in common: the entry for video memory is not present, or is that of its
-- table, with one page in it.
record IsKept (page_table v_m_page_table n : ℕ) (t : Tables) : Type 0 where
  small : n ≤ 7
  directory : (i : ℕ) → i < 1024 → i ≢ 33 → t.directory i ≡ loaded page_table n i
  shared :
      (t.directory 33 ≡ 2)
      ⊎ ((t.directory 33 ≡ v_m_page_table + 7) × (t.video_table 0 ≡ bit_or video v_m_blank_vector))
  rest : (i : ℕ) → 0 < i → i < 1024 → t.video_table i % 2 ≡ 0

module _ (page_table v_m_page_table : ℕ) (p : IsPlaced page_table v_m_page_table) where
  enable_paging-video_table :
      (t : Tables) (i : ℕ) → (enable_paging page_table t).video_table i ≡ t.video_table i
  unfolding enable_paging
  enable_paging-video_table t i = refl

  booted-IsKept :
      (t : Tables) (n : ℕ)
      → ((i : ℕ) → 0 < i → i < 1024 → t.video_table i % 2 ≡ 0)
      → n ≤ 7
      → IsKept page_table v_m_page_table n (load_new_process n (enable_paging page_table t))
  unfolding load_new_process
  booted-IsKept t n blank h = record {
    small = h;
    directory = λ i l ne.
        ground
          (arith, image_vector-page n h, enable_paging-directory page_table t i l p.first_fits);
    shared =
        inl (ground (arith, h, enable_paging-directory page_table t 33 (omega arith) p.first_fits));
    rest = λ i l u. ground (arith, h, enable_paging-video_table t i, blank i l u);
  }

  load_new_process-IsKept :
      (t : Tables) (n m : ℕ)
      → m ≤ 7
      → IsKept page_table v_m_page_table n t
      → IsKept page_table v_m_page_table m (load_new_process m t)
  unfolding load_new_process
  load_new_process-IsKept t n m h k = record {
    small = h;
    directory = λ i l ne. ground (arith, image_vector-page m h, k.directory i l ne);
    shared = elim k.shared [
      | inl e ↦ inl (ground (arith, h, e))
      | inr (e, f) ↦ inr (ground (arith, h, e), ground (arith, h, f))
    ];
    rest = λ i l u. ground (arith, h, k.rest i l u);
  }

  load_video_mem-IsKept :
      (t : Tables) (n : ℕ)
      → IsKept page_table v_m_page_table n t
      → IsKept page_table v_m_page_table n (load_video_mem v_m_page_table 0 t)
  unfolding load_video_mem
  load_video_mem-IsKept t n k = record {
    small = k.small;
    directory = λ i l ne. ground (arith, k.directory i l ne);
    shared =
        inr (ground (arith, table_entry-page v_m_page_table 7 p.second_fits, p.second_page), refl);
    rest = λ i l h. ground (arith, k.rest i l h);
  }

  pub load_video_mem-odd : (t : Tables) → (load_video_mem v_m_page_table 0 t).directory 33 % 2 ≡ 1
  unfolding load_video_mem
  load_video_mem-odd t = ground (arith, table_entry-page v_m_page_table 7 p.second_fits)

  Reached-IsKept :
      (n : ℕ) (t : Tables)
      → Reached page_table v_m_page_table n t
      → IsKept page_table v_m_page_table n t
  Reached-IsKept _ _ (booted t n blank h) = booted-IsKept t n blank h
  Reached-IsKept _ _ (switched {n} {t} m h r) =
      load_new_process-IsKept t n m h (Reached-IsKept n t r)
  Reached-IsKept _ _ (mapped {n} {t} r) = load_video_mem-IsKept t n (Reached-IsKept n t r)

  -- What code at user level sees: the image of process `n`, the page for video memory if there is one,
  -- and nothing else.
  pub translate-Reached :
      (n va : ℕ) (t : Tables)
      → Reached page_table v_m_page_table n t
      → va < u32_mod
      → translate page_table v_m_page_table true t va ≡ (
          if va / four_mb == 32
          then some (eight_mb + n * four_mb + va % four_mb)
          else if (va / 4096 == video_start / 4096) && (t.directory 33 % 2 == 1)
          then some (video + va % 4096)
          else none)
  unfolding translate
  translate-Reached n va t r l =
      let k = Reached-IsKept n t r in
      let rest = k.rest (va / 4096 % 1024) in
      elim (ℕ_discrete (va / four_mb) 33) [
        | yes e ↦ elim k.shared [
          | inl f ↦ ground (arith, e, f)
          | inr (f, g) ↦ elim (ℕ_discrete (va / 4096) (video_start / 4096)) [
            | yes same ↦
                let first : va / 4096 % 1024 ≡ 0 = omega (arith, same) in
                let entry : t.video_table (va / 4096 % 1024) ≡ video + 7 =
                  ap (λ i. t.video_table i) first ∙ g in
                ground (arith, e, f, same, entry, p.second_page, p.apart)
            | no ne ↦ ground (arith, e, f, ne, rest, p.second_page, p.apart)
          ]
        ]
        | no ne ↦ ground (arith, k.small, k.directory (va / four_mb) (omega arith) ne)
      ]

  -- With the two page tables on pages of their own, two different processes, each with the tables
  -- of any moment at which its image is loaded, share at user level at most the page of text-mode
  -- video memory: an address that an address of the one and an address of the other both lead to
  -- is in that page. The moments are those after `enable_paging`, with the entries of the table
  -- for video memory but the first not present, and a first `load_new_process`, and then any calls
  -- of `load_new_process` with a number up to 7 and of `load_video_mem(0)`.
  pub translate-apart :
      (n m va wa pa : ℕ) (t u : Tables)
      → Reached page_table v_m_page_table n t
      → Reached page_table v_m_page_table m u
      → n ≢ m
      → va < u32_mod
      → wa < u32_mod
      → translate page_table v_m_page_table true t va ≡ some pa
      → translate page_table v_m_page_table true u wa ≡ some pa
      → pa / 4096 ≡ video / 4096
  translate-apart n m va wa pa t u r s ne hv hw e f =
      ground (arith, translate-Reached n va t r hv, translate-Reached m wa u s hw)
