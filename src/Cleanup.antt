-- ===== src/Cleanup.antt =====
-- cleanup.cpp: which log files of a port pair are deleted. A directory is the list of its files, those
-- whose names start with a dot left out; what unlink answers is a parameter. Times are whole seconds.
pub mod Quota
use support_proxy.Base.{
  ℕ, ◌+◌, ◌-◌, ◌*◌, ◌/◌, Bool, true, false, not, ◌&&◌, ◌||◌, List, [], ◌∷◌, ◌++◌, Option, none,
  some, ltb, leb, ◌==◌, ◌^◌, if◌then◌else◌, length, drop, get_elem?, bytes_eq, codes,
}
use support_proxy.Base.Record.{field, zero_extend}
use support_proxy.KeyDb.{KeyEntry, key_magic, keyentry_min_size, keyentry_size}
use support_proxy.KeyDb.Layout.{key_entry_of}

pub data SessionKind : Type 0 where
  session_none session_telem session_video : SessionKind

unfoldable pub same_kind : SessionKind → SessionKind → Bool
same_kind session_none session_none = true
same_kind session_none session_telem = false
same_kind session_none session_video = false
same_kind session_telem session_none = false
same_kind session_telem session_telem = true
same_kind session_telem session_video = false
same_kind session_video session_none = false
same_kind session_video session_telem = false
same_kind session_video session_video = true

-- strcmp(name + n - length(suffix), suffix) == 0
unfoldable pub ends_in : List ℕ → List ℕ → Bool
ends_in suffix name = bytes_eq (drop (length name - length suffix) name) suffix

-- name[n - back] lies between `low` and `high`.
unfoldable pub byte_in : List ℕ → ℕ → ℕ → ℕ → Bool
byte_in name back low high = elim (get_elem? name (length name - back)) [
  | none ↦ false
  | some c ↦ leb low c && leb c high
]

-- `.v`, a digit that is not 0, and `suffix` at the end of a longer name.
unfoldable pub is_slot_file : List ℕ → List ℕ → Bool
is_slot_file suffix name =
    let s = length suffix in
    ltb (s + 3) (length name)
    && (ends_in suffix name
        && (byte_in name (s + 3) 46 46
            && (byte_in name (s + 2) 118 118 && byte_in name (s + 1) 49 57)))

unfoldable pub session_file_kind : List ℕ → SessionKind
session_file_kind name =
    if ltb 5 (length name) && ends_in (codes ".tlog") name
    then session_telem
    else if ltb 4 (length name) && ends_in (codes ".bin") name
    then session_telem
    else if is_slot_file (codes ".ts") name
    then session_video
    else if is_slot_file (codes ".mkv") name
    then session_video
    else session_none

-- A file under the directory of a port pair, with its allocated size.
pub record LogFile : Type 0 where
  pub name : List ℕ
  pub date_dir : List ℕ
  pub alloc : ℕ
  pub mtime : ℕ

-- The bytes of this kind.
unfoldable pub total_of : SessionKind → List LogFile → ℕ
total_of kind [] = 0
total_of kind (f ∷ fs) =
    let rest = total_of kind fs in
    if same_kind (session_file_kind (LogFile.name f)) kind then LogFile.alloc f + rest else rest

-- The test for a live session: time(nullptr) - fst.st_mtime < active_file_grace_s().
unfoldable pub is_live : ℕ → ℕ → LogFile → Bool
is_live now grace f = ltb now (LogFile.mtime f + grace)

-- The files that may go.
unfoldable pub items_of : SessionKind → ℕ → ℕ → List LogFile → List LogFile
items_of kind now grace [] = []
items_of kind now grace (f ∷ fs) =
    let rest = items_of kind now grace fs in
    if same_kind (session_file_kind (LogFile.name f)) kind && not (is_live now grace f)
    then f ∷ rest
    else rest

-- std::sort, the oldest file first.
unfoldable pub insert : LogFile → List LogFile → List LogFile
insert f [] = f ∷ []
insert f (g ∷ gs) =
    let rest = insert f gs in
    if leb (LogFile.mtime f) (LogFile.mtime g) then f ∷ g ∷ gs else g ∷ rest

unfoldable pub sort : List LogFile → List LogFile
sort [] = []
sort (f ∷ fs) = insert f (sort fs)

module _ (unlink : LogFile → Bool) where
  -- The loop: the files that are deleted, in order.
  unfoldable pub evict : ℕ → ℕ → ℕ → List LogFile → List LogFile
  evict target need total [] = []
  evict target need total (f ∷ fs) =
      let gone = evict target need (total - LogFile.alloc f) fs in
      let kept = evict target need total fs in
      if leb (total + need) target then [] else if unlink f then f ∷ gone else kept

  unfoldable pub enforce_quota : SessionKind → ℕ → ℕ → ℕ → ℕ → List LogFile → List LogFile
  enforce_quota kind quota need now grace files =
      let total = total_of kind files in
      if leb (total + need) quota
      then []
      else evict (quota - quota / 5) need total (sort (items_of kind now grace files))

  -- The files that the retention deletes, with the retention in seconds.
  unfoldable pub retention_pass : ℕ → ℕ → List LogFile → List LogFile
  retention_pass cutoff_age now [] = []
  retention_pass cutoff_age now (f ∷ fs) =
      let rest = retention_pass cutoff_age now fs in
      if not (cutoff_age == 0)
        && (not (same_kind (session_file_kind (LogFile.name f)) session_none)
            && (ltb (LogFile.mtime f + cutoff_age) now && unlink f))
      then f ∷ rest
      else rest

-- The same path.
unfoldable pub same_file : LogFile → LogFile → Bool
same_file f g =
    bytes_eq (LogFile.date_dir f) (LogFile.date_dir g) && bytes_eq (LogFile.name f) (LogFile.name g)

unfoldable pub is_gone : List LogFile → LogFile → Bool
is_gone [] f = false
is_gone (g ∷ gs) f = same_file g f || is_gone gs f

unfoldable pub without : List LogFile → List LogFile → List LogFile
without gone [] = []
without gone (f ∷ fs) = let rest = without gone fs in if is_gone gone f then rest else f ∷ rest

-- The files that the passes over one port pair leave.
unfoldable pub cleanup_for_port2 :
    (LogFile → Bool) → ℕ → ℕ → ℕ → ℕ → ℕ → ℕ → List LogFile → List LogFile
cleanup_for_port2 unlink cutoff_age video_quota_mb quota video_quota now grace files =
    let kept = without (retention_pass unlink cutoff_age now files) files in
    let vquota = if video_quota_mb == 0 then video_quota else video_quota_mb * 1024 * 1024 in
    let telem = without (enforce_quota unlink session_telem quota 0 now grace kept) kept in
    without (enforce_quota unlink session_video vquota 0 now grace telem) telem

-- What traverse_cb takes of a row of the key database: the port pair and its entry.
unfoldable pub cleanup_entry : List ℕ → List ℕ → Option (ℕ × KeyEntry)
cleanup_entry key value =
    let port2 = field 0 4 key in
    let k = key_entry_of (zero_extend keyentry_size value) in
    if not (length key == 4) || ltb (length value) keyentry_min_size
    then none
    else if port2 == 0 || leb (2 ^ 31) port2
    then none
    else if not (k.magic == key_magic)
    then none
    else some (port2, k)
