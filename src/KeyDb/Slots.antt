-- ===== src/KeyDb/Slots.antt =====
-- The video slots of an entry, across the seam between the fields of slots 0 to 2 and 3 to 4.
pub mod Options
use support_proxy.Base.{
  ℕ, zero, suc, ◌+◌, ◌-◌, ◌*◌, ◌/◌, ◌%◌, ◌^◌, List, [], ◌∷◌, ltb, leb, if◌then◌else◌, get_elem?,
  Option, none, some,
}
use support_proxy.KeyDb.{KeyEntry, key_max_video_ports, key_video_ports_inline}

-- VIDEO_SLOT_SHIFT
abbrev pub slot_shift : ℕ → ℕ
slot_shift slot = slot * 8

-- (word >> shift) & 0xFF
abbrev pub byte_at : ℕ → ℕ → ℕ
byte_at word shift = word / 2 ^ shift % 256

pub video_slot_opts_split : ℕ → ℕ → ℕ → ℕ
video_slot_opts_split lo hi slot =
    if leb key_max_video_ports slot
    then 0
    else if ltb slot key_video_ports_inline
    then byte_at lo (slot_shift slot)
    else byte_at hi (slot_shift (slot - key_video_ports_inline))

-- Clearing a byte of a word is taking away what stands there; a byte goes into zero bits by `+`.
pub video_slot_opts_set : ℕ → ℕ → ℕ → ℕ
video_slot_opts_set word index opts =
    word
    - byte_at word (slot_shift index) * 2 ^ slot_shift index
    + opts % 256 * 2 ^ slot_shift index

pub video_entry_opts : ℕ → ℕ
video_entry_opts video_flags = byte_at video_flags 24

-- An array of the entry, within its bounds.
element {ℓ} : {A : Type ℓ} → A → List A → ℕ → A
element otherwise xs i = elim (get_elem? xs i) [ none ↦ otherwise | some x ↦ x ]

pub video_port_of : KeyEntry → ℕ → ℕ
unfolding element
video_port_of ke slot =
    if ltb slot key_video_ports_inline
    then element 0 ke.video_ports slot
    else if ltb slot key_max_video_ports
    then element 0 ke.video_ports_hi (slot - key_video_ports_inline)
    else 0

pub video_rtmp_path_of : KeyEntry → ℕ → List ℕ
unfolding element
video_rtmp_path_of ke slot =
    if ltb slot key_video_ports_inline
    then element [] ke.video_rtmp_path slot
    else if ltb slot key_max_video_ports
    then element [] ke.video_rtmp_path_hi (slot - key_video_ports_inline)
    else []

pub video_slot_opts_of : KeyEntry → ℕ → ℕ
video_slot_opts_of ke slot = video_slot_opts_split ke.video_flags ke.video_flags_hi slot
