-- ===== src/Evidence/Content.antt =====
-- webapp/services/evidence_ledger_service.py: what read_content shows.
use se_skills.Prelude.{
  ℕ, ◌≡◌, ◌≢◌, ◌↔◌, ap, List, [], ◌∷◌, ◌++◌, All, eqb, eqb→eq, eqb_refl, eq_iff, eq_refl,
  Bool-cases, inl, inr, refl, String, Bool, true, false, not, Option, none, some, ◌==◌,
  if◌then◌else◌, arith,
}
use se_skills.Json.{Json}
use se_skills.Evidence.Record.{
  Availability, metadata_only, content_available, pending_unknown, access_lost, deleted,
  unavailable, SourceRevision, EvidenceSource, Fields,
}
use se_skills.Evidence.Status.{content_unavailable, has_content, content_withheld}
use se_skills.Evidence.Store.{Answer, Store, answered, failed_with, read_source}
use se_skills.Evidence.Listing.{
  ContentFile, absent, checked_content, content_at, content_from, content_of, find_revision,
  is_withheld, no_content, read_content, snapshot, unreadable,
}

-- The tests that a content passes.
record Passed (digest : Json → String) (files : String → ContentFile) (n : ℕ) (answer : Answer)
    (raw : Json) : Type 0 where
  source : EvidenceSource
  revision : SourceRevision
  pub is_read : answer ≡ answered source
  pub is_open : is_withheld source.availability ≡ false
  pub is_revision : find_revision n source.revisions ≡ some revision
  pub has : has_content revision.availability ≡ true
  pub is_stored : files revision.content_hash ≡ snapshot raw
  pub is_intact : (digest raw == revision.content_hash) ≡ true

checked_content-stored :
    (digest : Json → String) (hash : String) (file : ContentFile) (raw : Json)
    → checked_content digest hash file ≡ content_of raw
    → (file ≡ snapshot raw) × ((digest raw == hash) ≡ true)
unfolding checked_content
checked_content-stored digest hash absent raw e = cc e
checked_content-stored digest hash unreadable raw e = cc e
checked_content-stored digest hash (snapshot found) raw e = ground arith

read_content-Passed :
    (fields : Fields) (digest : Json → String) (files : String → ContentFile) (id : String) (n : ℕ)
    (store : Store) (raw : Json)
    → read_content fields digest files id n store ≡ content_of raw
    → Passed digest files n (read_source fields id store) raw
unfolding read_content content_from content_at
read_content-Passed fields digest files id n store raw e = from (read_source fields id store) e
  where
    at :
        (s : EvidenceSource) (held : Bool) (o : Option SourceRevision)
        → is_withheld s.availability ≡ held
        → find_revision n s.revisions ≡ o
        → (if held then no_content content_withheld else content_at digest files o) ≡ content_of raw
        → Passed digest files n (answered s) raw
    at s true o h f e = cc e
    at s false none h f e = cc e
    at s false (some r) h f e = stored (has_content r.availability) refl e
      where
        stored :
            (b : Bool)
            → has_content r.availability ≡ b
            → (if not b
                then no_content content_unavailable
                else checked_content digest r.content_hash (files r.content_hash))
              ≡ content_of raw
            → Passed digest files n (answered s) raw
        stored false c e = cc e
        stored true c e =
            let (file, intact) =
              checked_content-stored digest r.content_hash (files r.content_hash) raw e in
            record {
              source = s;
              revision = r;
              is_read = refl;
              is_open = h;
              is_revision = f;
              has = c;
              is_stored = file;
              is_intact = intact;
            }

    from :
        (answer : Answer)
        → content_from digest files n answer ≡ content_of raw
        → Passed digest files n answer raw
    from (failed_with code) e = cc e
    from (answered s) e =
        at s (is_withheld s.availability) (find_revision n s.revisions) refl refl e

Passed-read_content :
    (fields : Fields) (digest : Json → String) (files : String → ContentFile) (id : String) (n : ℕ)
    (store : Store) (raw : Json)
    → Passed digest files n (read_source fields id store) raw
    → read_content fields digest files id n store ≡ content_of raw
unfolding read_content content_from content_at checked_content
Passed-read_content fields digest files id n store raw w =
    rw w.is_read (rw w.is_open (rw w.is_revision (rw w.has (rw w.is_stored (rw w.is_intact refl)))))

-- Why a content is shown.
pub record Shown (digest : Json → String) (files : String → ContentFile) (n : ℕ) (answer : Answer)
    (raw : Json) : Type 0 where
  pub source : EvidenceSource
  pub is_read : answer ≡ answered source
  -- the latest state of the source
  pub is_known : source.availability ≢ pending_unknown
  pub is_accessible : source.availability ≢ access_lost
  pub is_kept : source.availability ≢ deleted
  -- the first of its revisions that has the number
  pub earlier : List SourceRevision
  pub revision : SourceRevision
  pub later : List SourceRevision
  pub is_there : source.revisions ≡ earlier ++ (revision ∷ later)
  pub is_asked : revision.revision ≡ n
  pub is_first : All (λ (r : SourceRevision). r.revision ≢ n) earlier
  pub has : revision.availability ≡ content_available
  -- its snapshot
  pub is_stored : files revision.content_hash ≡ snapshot raw
  pub is_intact : digest raw ≡ revision.content_hash

withheld-open :
    (a : Availability)
    → is_withheld a ≡ false
    → (a ≢ pending_unknown) × (a ≢ access_lost) × (a ≢ deleted)
withheld-open a h =
    (λ e. cc (ap is_withheld e, h), λ e. cc (ap is_withheld e, h), λ e. cc (ap is_withheld e, h))

open-withheld :
    (a : Availability) → a ≢ pending_unknown → a ≢ access_lost → a ≢ deleted → is_withheld a ≡ false
open-withheld metadata_only p l d = refl
open-withheld content_available p l d = refl
open-withheld unavailable p l d = refl
open-withheld pending_unknown p l d = elim (p refl) [ ]
open-withheld access_lost p l d = elim (l refl) [ ]
open-withheld deleted p l d = elim (d refl) [ ]

has_content-available : (a : Availability) → has_content a ≡ true → a ≡ content_available
has_content-available content_available h = refl
has_content-available metadata_only h = cc h
has_content-available unavailable h = cc h
has_content-available pending_unknown h = cc h
has_content-available access_lost h = cc h
has_content-available deleted h = cc h

-- The first revision with a number.
abbrev First : ℕ → List SourceRevision → SourceRevision → Type 0
First n rs r =
    (earlier : List SourceRevision) × (later : List SourceRevision) × (rs ≡ earlier ++ (r ∷ later))
    × (r.revision ≡ n)
    × All (λ (x : SourceRevision). x.revision ≢ n) earlier

find_revision-First :
    (n : ℕ) (rs : List SourceRevision) (r : SourceRevision)
    → find_revision n rs ≡ some r
    → First n rs r
unfolding find_revision
find_revision-First n [] r e = cc e
find_revision-First n (x ∷ xs) r e = elim (Bool-cases (eqb x.revision n)) [
  | inl here ↦
      let same : x ≡ r = cc (rw here at e) in
      ([], xs, ap (λ y. y ∷ xs) same, rw same at (eqb→eq x.revision n here), tt)
  | inr other ↦
      let (earlier, later, split, asked, first) = find_revision-First n xs r (rw other at e) in
      (
        x ∷ earlier,
        later,
        ap (λ ys. x ∷ ys) split,
        asked,
        (λ same. cc (ap (λ m. eqb m n) same, eqb_refl n, other), first),
      )
]

First-find_revision :
    (n : ℕ) (earlier later : List SourceRevision) (r : SourceRevision)
    → r.revision ≡ n
    → All (λ (x : SourceRevision). x.revision ≢ n) earlier
    → find_revision n (earlier ++ (r ∷ later)) ≡ some r
unfolding find_revision
First-find_revision n [] later r asked first = rw (asked, eqb_refl) refl
First-find_revision n (x ∷ xs) later r asked (other, first) = elim (Bool-cases (eqb x.revision n)) [
  | inl here ↦ elim (other (eqb→eq x.revision n here)) [ ]
  | inr apart ↦ rw apart (First-find_revision n xs later r asked first)
]

Passed-Shown :
    (digest : Json → String) (files : String → ContentFile) (n : ℕ) (answer : Answer) (raw : Json)
    → Passed digest files n answer raw
    → Shown digest files n answer raw
Passed-Shown digest files n answer raw w =
    let (known, accessible, kept) = withheld-open w.source.availability w.is_open in
    let (earlier, later, split, asked, first) =
      find_revision-First n w.source.revisions w.revision w.is_revision in
    record {
      source = w.source;
      is_read = w.is_read;
      is_known = known;
      is_accessible = accessible;
      is_kept = kept;
      earlier = earlier;
      revision = w.revision;
      later = later;
      is_there = split;
      is_asked = asked;
      is_first = first;
      has = has_content-available w.revision.availability w.has;
      is_stored = w.is_stored;
      is_intact = ground (arith, eq_iff (digest raw) w.revision.content_hash, w.is_intact);
    }

Shown-Passed :
    (digest : Json → String) (files : String → ContentFile) (n : ℕ) (answer : Answer) (raw : Json)
    → Shown digest files n answer raw
    → Passed digest files n answer raw
Shown-Passed digest files n answer raw w = record {
  source = w.source;
  revision = w.revision;
  is_read = w.is_read;
  is_open = open-withheld w.source.availability w.is_known w.is_accessible w.is_kept;
  is_revision =
      rw w.is_there (First-find_revision n w.earlier w.later w.revision w.is_asked w.is_first);
  has = ap has_content w.has;
  is_stored = w.is_stored;
  is_intact = rw (w.is_intact, eq_refl) refl;
}

-- read_content gives a content just if the source can be read, its latest state is not unknown, lost
-- or deleted, the first of its revisions that has the asked number has content, and the file for the
-- hash of that revision holds the content, with that hash.
pub read_content_lem :
    (fields : Fields) (digest : Json → String) (files : String → ContentFile) (id : String) (n : ℕ)
    (store : Store) (raw : Json)
    → (read_content fields digest files id n store ≡ content_of raw)
      ↔ Shown digest files n (read_source fields id store) raw
read_content_lem fields digest files id n store raw = (
  λ e.
      Passed-Shown digest files n (read_source fields id store) raw
        (read_content-Passed fields digest files id n store raw e),
  λ w.
      Passed-read_content fields digest files id n store raw
        (Shown-Passed digest files n (read_source fields id store) raw w),
)
