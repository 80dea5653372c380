-- ===== src/Elf/Sections.antt =====
-- sim/tools/elf2mem.py, `main`: the sections of the instruction memory.
use rv32im_5_stage_pipelined.Base.{ℕ, ◌+◌, ◌≤◌, ◌≡◌, refl, sym, ap, ◌∙◌, arith, some, List, [], ◌∷◌}
use rv32im_5_stage_pipelined.Base.Lists.{length, get_elem?}
use rv32im_5_stage_pipelined.Elf.{
  Tools, value_error, runtime_error, ok, ◌>>=◌, or_raised, put_within, put_section, put_sections,
  extract_raw, get_section_vma,
}
use rv32im_5_stage_pipelined.Elf.Listed.{>>=-ok, or_raised-ok, Listed, get_section_vma-Listed}
use rv32im_5_stage_pipelined.Elf.Placed.{bytes_after, byte_after, Changed, put_within-Changed}

-- The places of the sections that are not empty, in their order.
pub data Found (tools : Tools) (size : ℕ) : List (List ℕ) → List (ℕ × List ℕ) → Type 0 where
  no_sections : Found tools size [] []
  empty_section :
      (section : List ℕ) (sections : List (List ℕ)) (places : List (ℕ × List ℕ))
      → tools.objcopy section ≡ some []
      → Found tools size sections places
      → Found tools size (section ∷ sections) places
  placed_section :
      (section : List ℕ) (sections : List (List ℕ)) (off b : ℕ) (bs : List ℕ)
      (places : List (ℕ × List ℕ))
      → tools.objcopy section ≡ some (b ∷ bs)
      → Listed tools section off
      → off + length (b ∷ bs) ≤ size
      → Found tools size sections places
      → Found tools size (section ∷ sections) ((off, b ∷ bs) ∷ places)

-- An image changes by the places, one after another.
unfoldable pub AllChanged : List (ℕ × List ℕ) → List ℕ → List ℕ → Type 0
AllChanged places image image' =
    (length image' ≡ length image)
    × ((i d : ℕ) → get_elem? image i ≡ some d → get_elem? image' i ≡ some (bytes_after places i d))

pub AllChanged-cons :
    (place : ℕ × List ℕ) (places : List (ℕ × List ℕ)) (xs ys zs : List ℕ)
    → Changed place xs ys
    → AllChanged places ys zs
    → AllChanged (place ∷ places) xs zs
unfolding Changed AllChanged
AllChanged-cons place places xs ys zs h k =
    (k.0 ∙ h.0, λ i d e. k.1 i (byte_after place i d) (h.1 i d e))

pub put_sections-Found :
    (tools : Tools) (size : ℕ) (sections : List (List ℕ)) (image image' : List ℕ)
    → length image ≡ size
    → put_sections tools size sections image ≡ ok image'
    → (places : List (ℕ × List ℕ)) × Found tools size sections places
      × AllChanged places image image'
unfolding put_sections put_section extract_raw AllChanged Changed
put_sections-Found tools size [] image image' sized e =
    let same_image : image ≡ image' = ground arith in
    ([], Found.no_sections, rw (sym same_image) (refl, λ i d q. q))
put_sections-Found tools size (section ∷ sections) image image' sized e =
    let (raw, extracted, rest) = >>=-ok (or_raised runtime_error (tools.objcopy section)) _ e in
    by_raw (λ im h q. put_sections-Found tools size sections im image' h q) raw
      (or_raised-ok runtime_error (tools.objcopy section) raw extracted) rest
  where
    by_raw :
        ((im : List ℕ)
          → length im ≡ size
          → put_sections tools size sections im ≡ ok image'
          → (places : List (ℕ × List ℕ)) × Found tools size sections places
            × AllChanged places im image')
        → (raw : List ℕ) → tools.objcopy section ≡ some raw
        → (put_section tools size section raw image >>= λ image1.
            put_sections tools size sections image1)
          ≡ ok image'
        → (places : List (ℕ × List ℕ)) × Found tools size (section ∷ sections) places
          × AllChanged places image image'
    by_raw later [] none_there q =
        let (places, found, all) = later image sized q in
        (places, Found.empty_section section sections places none_there found, all)
    by_raw later (b ∷ bs) there q =
        let (image1, put, rest) = >>=-ok (put_section tools size section (b ∷ bs) image) _ q in
        let (vma?, looked, put1) = >>=-ok (get_section_vma tools section) _ put in
        let (vma, had, put2) = >>=-ok (or_raised value_error vma?) _ put1 in
        let at = looked ∙ ap ok (or_raised-ok value_error vma? vma had) in
        let (changed, fits) =
          put_within-Changed vma (b ∷ bs) image image1
            (ap (λ (n : ℕ). put_within n vma (b ∷ bs) image) sized ∙ put2) in
        let sized1 = changed.0 ∙ sized in
        let (places, found, all) = later image1 sized1 rest in
        (
          (vma, b ∷ bs) ∷ places,
          Found.placed_section section sections vma b bs places there
              (get_section_vma-Listed tools section vma at) (omega (arith, fits, sized)) found,
          AllChanged-cons (vma, b ∷ bs) places image image1 image' changed all,
        )
