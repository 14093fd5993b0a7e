-- ===== src/Evidence/Listing.antt =====
-- webapp/services/evidence_ledger_service.py: the reads, read_content and list_sources. `iso` is
-- `isoformat` of a time. A negative offset, which is refused, has no counterpart here.
use se_skills.Prelude.{
  ℕ, zero, suc, ◌+◌, String, Bool, true, false, ◌||◌, not, Option, none, some, List, [], ◌∷◌, ◌==◌,
  length, is_some, eqb, leb, ltb, if◌then◌else◌,
}
use Prim.Native.Nat.{Ordering}
use Prim.Native.String.{compare}
use se_skills.Prelude.Dict.{Dict}
use se_skills.Json.{Json}
use se_skills.Evidence.Record.{
  Availability, pending_unknown, access_lost, deleted, ProcessingStatus, discovered,
  awaiting_association, awaiting_content, queued, processing, processed, failed, superseded,
  SourceRevision, EvidenceSource, Fields,
}
use se_skills.Evidence.Status.{
  Code, content_missing, content_unavailable, content_withheld, malformed_storage, source_forgotten,
  unknown_revision, has_content,
}
use se_skills.Evidence.Store.{Answer, Store, answered, failed_with, read_source}

-- A content file, by its hash: what `_read_json` makes of it.
pub data ContentFile : Type 0 where
  absent unreadable : ContentFile
  snapshot : Json → ContentFile

pub data Content : Type 0 where
  no_content : Code → Content
  content_of : Json → Content

-- `in WITHHOLD_CONTENT_AVAILABILITY`
abbrev pub is_withheld : Availability → Bool
is_withheld pending_unknown = true
is_withheld access_lost = true
is_withheld deleted = true
is_withheld _ = false

unfoldable pub find_revision : ℕ → List SourceRevision → Option SourceRevision
find_revision n [] = none
find_revision n (r ∷ rs) = if eqb r.revision n then some r else find_revision n rs

-- `sha256_hex(canonical_bytes(raw))` is `digest raw`.
unfoldable pub checked_content : (Json → String) → String → ContentFile → Content
checked_content digest hash absent = no_content content_missing
checked_content digest hash unreadable = no_content malformed_storage
checked_content digest hash (snapshot raw) =
    if not (digest raw == hash) then no_content malformed_storage else content_of raw

unfoldable pub content_at :
    (Json → String) → (String → ContentFile) → Option SourceRevision → Content
content_at digest files none = no_content unknown_revision
content_at digest files (some r) =
    if not (has_content r.availability)
    then no_content content_unavailable
    else checked_content digest r.content_hash (files r.content_hash)

unfoldable pub content_from : (Json → String) → (String → ContentFile) → ℕ → Answer → Content
content_from digest files n (failed_with code) = no_content code
content_from digest files n (answered s) =
    if is_withheld s.availability
    then no_content content_withheld
    else content_at digest files (find_revision n s.revisions)

unfoldable pub read_content :
    Fields → (Json → String) → (String → ContentFile) → String → ℕ → Store → Content
read_content fields digest files id n store =
    content_from digest files n (read_source fields id store)

abbrev pub status_code : ProcessingStatus → ℕ
status_code discovered = 0
status_code awaiting_association = 1
status_code awaiting_content = 2
status_code queued = 3
status_code processing = 4
status_code processed = 5
status_code failed = 6
status_code superseded = 7

-- `in _UNPROCESSED`
abbrev pub is_unprocessed : ProcessingStatus → Bool
is_unprocessed processed = false
is_unprocessed superseded = false
is_unprocessed _ = true

abbrev pub has_status : Option ProcessingStatus → ProcessingStatus → Bool
has_status none st = true
has_status (some wanted) st = eqb (status_code st) (status_code wanted)

abbrev pub is_listed : Option ProcessingStatus → Bool → ProcessingStatus → Bool
is_listed status unprocessed_only st =
    if not (has_status status st)
    then false
    else if unprocessed_only
    then is_unprocessed st
    else true

-- The records of the directory, read one by one, and the number of those that are malformed.
unfoldable pub scan_sources :
    (String → Answer) → (ProcessingStatus → Bool) → Dict EvidenceSource → Dict EvidenceSource × ℕ
scan_sources read listed [] = ([], 0)
scan_sources read listed ((id, file) ∷ rest) =
    let (items, malformed) = scan_sources read listed rest in
    elim (read id) [
      | failed_with source_forgotten ↦ (items, malformed)
      | failed_with _ ↦ (items, suc malformed)
      | answered s ↦
          if listed s.processing.status then ((id, s) ∷ items, malformed) else (items, malformed)
    ]

-- Descending by (updated_at, source_id)
abbrev pub is_later : (ℕ → String) → String × EvidenceSource → String × EvidenceSource → Bool
is_later iso (i, s) (j, t) = elim (compare (iso s.updated_at) (iso t.updated_at)) [
  | Ordering.gt ↦ true
  | Ordering.lt ↦ false
  | Ordering.eq ↦ elim (compare i j) [ Ordering.gt ↦ true | _ ↦ false ]
]

unfoldable pub place :
    (ℕ → String) → String × EvidenceSource → Dict EvidenceSource → Dict EvidenceSource
place iso x [] = x ∷ []
place iso x (y ∷ ys) =
    let rest = place iso x ys in if is_later iso y x then y ∷ rest else x ∷ y ∷ ys

unfoldable pub latest_first : (ℕ → String) → Dict EvidenceSource → Dict EvidenceSource
latest_first iso [] = []
latest_first iso (x ∷ xs) = place iso x (latest_first iso xs)

unfoldable pub count_status : Dict EvidenceSource → ProcessingStatus → ℕ
count_status [] st = 0
count_status ((id, s) ∷ rest) st =
    if eqb (status_code s.processing.status) (status_code st)
    then suc (count_status rest st)
    else count_status rest st

unfoldable pub take {ℓ} : {A : Type ℓ} → ℕ → List A → List A
take zero xs = []
take (suc n) [] = []
take (suc n) (x ∷ xs) = x ∷ take n xs

unfoldable pub drop {ℓ} : {A : Type ℓ} → ℕ → List A → List A
drop zero xs = xs
drop (suc n) [] = []
drop (suc n) (x ∷ xs) = drop n xs

pub record Page : Type 0 where
  pub total : ℕ
  pub counts_by_status : ProcessingStatus → ℕ
  pub offset : ℕ
  pub limit : ℕ
  pub next_offset : Option ℕ
  pub truncated : Bool
  pub malformed_records : ℕ
  pub sources : Dict EvidenceSource

unfoldable pub next_page : ℕ → ℕ → ℕ → Option ℕ
next_page offset limit total = if ltb (offset + limit) total then some (offset + limit) else none

unfoldable pub page_of : ℕ → ℕ → ℕ → Dict EvidenceSource → Page
page_of limit offset malformed items = record {
  total = length items;
  counts_by_status = count_status items;
  offset = offset;
  limit = limit;
  next_offset = next_page offset limit (length items);
  truncated = is_some (next_page offset limit (length items));
  malformed_records = malformed;
  sources = take limit (drop offset items);
}

-- Page bounds that are refused give none.
unfoldable pub list_sources :
    Fields → (ℕ → String) → Option ProcessingStatus → Bool → ℕ → ℕ → Store → Option Page
list_sources fields iso status unprocessed_only limit offset store =
    let (items, malformed) =
      scan_sources (λ id. read_source fields id store) (is_listed status unprocessed_only)
        store.sources in
    if not (leb 1 limit) || not (leb limit 500)
    then none
    else some (page_of limit offset malformed (latest_first iso items))

unfoldable pub unprocessed_sources : Fields → (ℕ → String) → ℕ → ℕ → Store → Option Page
unprocessed_sources fields iso limit offset store =
    list_sources fields iso none true limit offset store
