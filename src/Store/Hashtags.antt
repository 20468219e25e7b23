-- ===== src/Store/Hashtags.antt =====
-- src/api/repositories/HashtagRepository.ts. What `trim` and `toLowerCase` do is the runtime's.
use saral.Base.{
  if◌then◌else◌, ℕ, ◌+◌, Bool, true, ◌&&◌, Option, none, some, List, [], ◌∷◌, ◌++◌, String, leb,
  ◌==◌, find, keep,
}
use Prim.Native.Char.{code}
use text.Mathlib.Text.{◌==◌ as str_eq}
use saral.Jobs.{SyncKind, top, recent}
use saral.Store.Tables.{Database, Hashtag, update_where}
use saral.Store.Assets.{slice_from_start}

abbrev pub has_name : String → Hashtag → Bool
has_name name h = str_eq h.name name

abbrev pub has_id : ℕ → Hashtag → Bool
has_id id h = h.id == id

abbrev pub find_hashtag : ℕ → Database → Option Hashtag
find_hashtag id db = find (has_id id) db.hashtags

-- `.replace(/^#+/, '')`.
unfoldable pub strip_hashes : String → String
strip_hashes String.[] = String.[]
strip_hashes (String.◌∷◌ c s) = if code c == 35 then strip_hashes s else String.◌∷◌ c s

unfoldable pub normalize_hashtag_name : (trim to_lower_case : String → String) → String → String
normalize_hashtag_name trim to_lower_case raw = to_lower_case (strip_hashes (trim raw))

unfoldable pub find_by_name :
    (trim to_lower_case : String → String) → String → Database → Option Hashtag
find_by_name trim to_lower_case name db =
    find (has_name (normalize_hashtag_name trim to_lower_case name)) db.hashtags

unfoldable pub new_hashtag :
    (id now : ℕ) → String → (from until : Option ℕ) → Option String → Hashtag
new_hashtag id now name from until notes = record {
  id = id;
  name = name;
  ig_hashtag_id = none;
  ig_hashtag_id_resolved_at = none;
  is_active = true;
  track_from = from;
  track_until = until;
  top_sync_enabled = true;
  recent_sync_enabled = true;
  max_media_per_sync = none;
  last_top_synced_at = none;
  last_recent_synced_at = none;
  last_sync_error = none;
  consecutive_failures = 0;
  notes = notes;
  created_at = now;
  updated_at = now;
}

abbrev pub touch : ℕ → Hashtag → Hashtag
touch now h = record h { updated_at = now }

-- INSERT … ON CONFLICT (name) DO UPDATE of `updated_at` alone.
unfoldable pub ensure_tracked :
    (trim to_lower_case : String → String)
    → (now : ℕ) → String
    → (from until : Option ℕ) → Option String
    → Database
    → Database × Hashtag
unfolding new_hashtag
ensure_tracked trim to_lower_case now raw from until notes db =
    let name = normalize_hashtag_name trim to_lower_case raw in
    elim (find (has_name name) db.hashtags) [
      | none ↦
          let row = new_hashtag db.drawn now name from until notes in
          (record db { hashtags = db.hashtags ++ row ∷ []; drawn = db.drawn + 1 }, row)
      | some h ↦ (
        record db { hashtags = update_where (has_name name) (touch now) db.hashtags },
        touch now h,
      )
    ]

abbrev pub update_hashtag : (Hashtag → Bool) → (Hashtag → Hashtag) → Database → Database
update_hashtag p f db = record db { hashtags = update_where p f db.hashtags }

unfoldable pub set_ig_hashtag_id : (now id : ℕ) → String → Database → Database
set_ig_hashtag_id now id ig = update_hashtag (has_id id) (λ h. record h {
  ig_hashtag_id = some ig;
  ig_hashtag_id_resolved_at = some now;
  updated_at = now;
})

abbrev pub kind_enabled : SyncKind → Hashtag → Bool
kind_enabled top h = h.top_sync_enabled
kind_enabled recent h = h.recent_sync_enabled

-- `trackFrom` NULL or not after now; `trackUntil` NULL or not before it.
abbrev pub not_after : Option ℕ → ℕ → Bool
not_after none now = true
not_after (some t) now = leb t now

abbrev pub not_before : Option ℕ → ℕ → Bool
not_before none now = true
not_before (some t) now = leb now t

abbrev pub is_due : SyncKind → ℕ → Hashtag → Bool
is_due kind now h =
    h.is_active && kind_enabled kind h && not_after h.track_from now && not_before h.track_until now

unfoldable pub find_due_for_sync : SyncKind → ℕ → Database → List Hashtag
find_due_for_sync kind now db = keep (is_due kind now) db.hashtags

unfoldable pub set_active :
    (trim to_lower_case : String → String) → (now : ℕ) → String → Bool → Database → Database
set_active trim to_lower_case now raw active =
    update_hashtag (has_name (normalize_hashtag_name trim to_lower_case raw))
      (λ h. record h { is_active = active; updated_at = now })

abbrev pub synced_at : SyncKind → ℕ → Hashtag → Hashtag
synced_at top now h = record h { last_top_synced_at = some now }
synced_at recent now h = record h { last_recent_synced_at = some now }

unfoldable pub mark_sync_succeeded : (now id : ℕ) → SyncKind → Database → Database
mark_sync_succeeded now id kind = update_hashtag (has_id id) (λ h. record (synced_at kind now h) {
  consecutive_failures = 0;
  last_sync_error = none;
  updated_at = now;
})

unfoldable pub mark_sync_failed : (now id : ℕ) → String → Database → Database
mark_sync_failed now id error = update_hashtag (has_id id) (λ h. record h {
  consecutive_failures = h.consecutive_failures + 1;
  last_sync_error = some (slice_from_start 2000 error);
  updated_at = now;
})
