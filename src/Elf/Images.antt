-- ===== src/Elf/Images.antt =====
-- sim/tools/elf2mem.py, `main`: the two images, byte for byte.
use rv32im_5_stage_pipelined.Asm.Text.{codes}
use rv32im_5_stage_pipelined.Base.{
  ℕ, zero, suc, ◌+◌, ◌≤◌, ◌<◌, ◌≡◌, refl, sym, ap, ◌∙◌, arith, some, List, [], ◌∷◌,
}
use rv32im_5_stage_pipelined.Base.Lists.{length, get_elem?}
use rv32im_5_stage_pipelined.Dtb.Bytes.{zero_bytes}
use rv32im_5_stage_pipelined.Dtb.Bytes.Laws.{length-zero_bytes}
use rv32im_5_stage_pipelined.Elf.{
  Tools, runtime_error, ok, or_raised, put_within, put_sections, extract_raw, images, data_image,
  start_of,
}
use rv32im_5_stage_pipelined.Elf.Listed.{>>=-ok, or_raised-ok}
use rv32im_5_stage_pipelined.Elf.Symbols.{Printed, get_symbol-Printed}
use rv32im_5_stage_pipelined.Elf.Placed.{bytes_after, Changed, put_within-Changed}
use rv32im_5_stage_pipelined.Elf.Sections.{Found, AllChanged, AllChanged-cons, put_sections-Found}

-- An image of this size, with the bytes of the places, the later over the earlier, and 0 elsewhere.
pub Holds : ℕ → List (ℕ × List ℕ) → List ℕ → Type 0
Holds size places image =
    (length image ≡ size) × ((i : ℕ) → i < size → get_elem? image i ≡ some (bytes_after places i 0))

get_elem?-zero_bytes : (n i : ℕ) → i < n → get_elem? (zero_bytes n) i ≡ some 0
unfolding zero_bytes
get_elem?-zero_bytes zero i h = absurd (omega arith)
get_elem?-zero_bytes (suc n) zero h = refl
get_elem?-zero_bytes (suc n) (suc i) h = get_elem?-zero_bytes n i (omega arith)

AllChanged-Holds :
    (size : ℕ) (places : List (ℕ × List ℕ)) (image : List ℕ)
    → AllChanged places (zero_bytes size) image
    → Holds size places image
unfolding AllChanged Holds
AllChanged-Holds size places image h =
    (h.0 ∙ length-zero_bytes size, λ i lt. h.1 i 0 (get_elem?-zero_bytes size i lt))

-- A section that is not empty starts at its symbol, and an empty one at 0.
pub StartsAt : Tools → List ℕ → List ℕ → ℕ → Type 0
StartsAt tools name [] off = off ≡ 0
StartsAt tools name (b ∷ bs) off = Printed tools name off

start_of-StartsAt :
    (tools : Tools) (name raw : List ℕ) (off : ℕ)
    → start_of tools name raw ≡ ok off
    → StartsAt tools name raw off
unfolding start_of StartsAt
start_of-StartsAt tools name [] off e = ground arith
start_of-StartsAt tools name (b ∷ bs) off e = get_symbol-Printed tools name off e

-- The data memory holds `.rodata` and then `.data`, at their symbols if they are not empty.
pub DataPlaced : Tools → ℕ → List ℕ → Type 0
DataPlaced tools size dmem =
    (rodata data_ : List ℕ) × (rodata_off data_off : ℕ) × (tools.objcopy (codes ".rodata")
      ≡ some rodata)
    × (tools.objcopy (codes ".data") ≡ some data_)
    × StartsAt tools (codes "_rodata_start") rodata rodata_off
    × StartsAt tools (codes "_data_start") data_ data_off
    × (rodata_off + length rodata ≤ size)
    × (data_off + length data_ ≤ size)
    × Holds size ((rodata_off, rodata) ∷ (data_off, data_) ∷ []) dmem

data_image-DataPlaced :
    (tools : Tools) (size : ℕ) (dmem : List ℕ)
    → data_image tools size ≡ ok dmem
    → DataPlaced tools size dmem
unfolding data_image extract_raw DataPlaced Changed AllChanged
data_image-DataPlaced tools size dmem e =
    let (rodata, got, e1) =
      >>=-ok (or_raised runtime_error (tools.objcopy (codes ".rodata"))) _ e in
    let (data_, got', e2) = >>=-ok (or_raised runtime_error (tools.objcopy (codes ".data"))) _ e1 in
    let (off, from, e3) = >>=-ok (start_of tools (codes "_rodata_start") rodata) _ e2 in
    let (off', from', e4) = >>=-ok (start_of tools (codes "_data_start") data_) _ e3 in
    let (image, put, put') = >>=-ok (put_within size off rodata (zero_bytes size)) _ e4 in
    let zeros = length-zero_bytes size in
    let (changed, fits) =
      put_within-Changed off rodata (zero_bytes size) image
        (ap (λ (n : ℕ). put_within n off rodata (zero_bytes size)) zeros ∙ put) in
    let sized : length image ≡ size = changed.0 ∙ zeros in
    let (changed', fits') =
      put_within-Changed off' data_ image dmem
        (ap (λ (n : ℕ). put_within n off' data_ image) sized ∙ put') in
    let all =
      AllChanged-cons (off, rodata) ((off', data_) ∷ []) (zero_bytes size) image dmem changed
        changed' in
    (
      rodata,
      data_,
      off,
      off',
      or_raised-ok runtime_error (tools.objcopy (codes ".rodata")) rodata got,
      or_raised-ok runtime_error (tools.objcopy (codes ".data")) data_ got',
      start_of-StartsAt tools (codes "_rodata_start") rodata off from,
      start_of-StartsAt tools (codes "_data_start") data_ off' from',
      omega (arith, fits, zeros),
      omega (arith, fits', sized),
      AllChanged-Holds size ((off, rodata) ∷ (off', data_) ∷ []) dmem all,
    )

-- The images that are written have their sizes. The instruction memory holds the sections that are
-- not empty, each within the memory and at the address that objdump lists: the number that the fourth
-- field is to base 16, in the first line that names the section in the second of four fields or more.
-- The data memory holds `.rodata` and then `.data`, each within it and, if not empty, at the number
-- that the first field is to base 16, in the first line of three fields or more that nm prints with
-- its symbol last. A later section replaces what it overlaps, and all other bytes are 0.
pub images-placed :
    (tools : Tools) (sections : List (List ℕ)) (imem_size dmem_size : ℕ) (imem dmem : List ℕ)
    → images tools sections imem_size dmem_size ≡ ok (imem, dmem)
    → ((places : List (ℕ × List ℕ)) × Found tools imem_size sections places
        × Holds imem_size places imem)
      × DataPlaced tools dmem_size dmem
unfolding images
images-placed tools sections imem_size dmem_size imem dmem e =
    let (imem', made, e1) =
      >>=-ok (put_sections tools imem_size sections (zero_bytes imem_size)) _ e in
    let (dmem', made', e2) = >>=-ok (data_image tools dmem_size) _ e1 in
    let same_imem : imem' ≡ imem = ground arith in
    let same_dmem : dmem' ≡ dmem = ground arith in
    let (places, found, all) =
      put_sections-Found tools imem_size sections (zero_bytes imem_size) imem'
        (length-zero_bytes imem_size) made in
    (
      (places, found, rw (sym same_imem) (AllChanged-Holds imem_size places imem' all)),
      rw (sym same_dmem) (data_image-DataPlaced tools dmem_size dmem' made'),
    )
