-- ===== src/Memory.antt =====
-- The typed memory of a subject: the tables `memory_entries` and `memory_links`, and `memory_apply`
-- and `memory_transition` of src/memory.cpp. The text index `memory_fts`, which only retrieval
-- reads, and the retrieval itself are not modelled.
use cogg_cpp.Base.{
  ℕ, suc, ◌+◌, Option, none, some, List, [], ◌∷◌, ◌++◌, map, ◌&&◌, ◌||◌, Bool, true, false, not,
  ltb, if◌then◌else◌, length, find, any, Text, codes, text_eq, contains, Result, ok, require,
  require_row, ◌>>=◌, ◌>>◌,
}
use cogg_cpp.Proposal.{MemoryNote, validate_memory_notes, has_type, has_status, is_empty}

-- A row of `memory_entries` with its body.
pub record Entry : Type 0 where
  pub id : Text
  pub subject : Text
  pub key : Text
  pub tick : ℕ
  pub commit : Text
  pub previous : Option Text
  pub note : MemoryNote
  pub current : Bool

-- A row of `memory_links`.
pub record Link : Type 0 where
  pub subject : Text
  pub note : Text
  pub source : Text
  pub covers : Bool

pub record MemoryDb : Type 0 where
  pub entries : List Entry
  pub links : List Link

-- WHERE subject=? AND id=?
unfoldable pub get : List Entry → Text → Text → Result Entry
get entries subject id =
    require_row (find (λ e. text_eq e.subject subject && text_eq e.id id) entries)
      "unknown or foreign memory source"

-- What a note may cite, for one of its sources.
unfoldable pub check_cited : ℕ → List Text → MemoryNote → Entry → Result (Unit {0})
check_cited tick writing n b = do
  require (ltb b.tick tick) "same-transition memory source"
  require (not (has_type n (codes "procedure")) || not (has_status b.note (codes "retracted")))
      "procedure cannot cite a retracted source"
  require (not (has_type n (codes "procedure")) || not (has_type b.note (codes "summary")))
      "procedure requires non-summary evidence sources"
  require
      (not (has_type n (codes "summary"))
        || (b.current && not (has_status b.note (codes "retracted"))))
      "summary requires current source versions"
  require (not (has_type n (codes "summary")) || not (has_type b.note (codes "summary")))
      "recursive summaries are not supported"
  require (not (has_type n (codes "summary")) || not (contains writing b.note.key))
      "cannot overwrite a summary source in the same transition"

-- What a note may compact, for one of the sources that it covers.
unfoldable pub check_covered : List Text → Entry → Result (Unit {0})
check_covered writing b = do
  require (b.current && not (has_status b.note (codes "retracted")))
      "cannot compact superseded/retracted source"
  require (not (has_type b.note (codes "summary"))) "recursive summary compaction is not supported"
  require (not (has_status b.note (codes "open"))) "cannot compact an open task"
  require (not (contains writing b.note.key))
      "cannot overwrite a compacted source in the same transition"

-- The loop over `n.sources`: the bytes of the texts that the note compacts.
unfoldable pub source_bytes : List Entry → Text → ℕ → List Text → MemoryNote → List Text → Result ℕ
unfolding get check_cited check_covered
source_bytes entries subject tick writing n [] = ok 0
source_bytes entries subject tick writing n (id ∷ rest) = do
  b ← get entries subject id
  check_cited tick writing n b
  if contains n.covers id then check_covered writing b else ok tt
  bytes ← source_bytes entries subject tick writing n rest
  ok ((if contains n.covers id then length b.note.text else 0) + bytes)

-- WHERE subject=? AND key=? AND current=1
abbrev pub is_current_at : Text → Text → Entry → Bool
is_current_at subject key e = text_eq e.subject subject && text_eq e.key key && e.current

-- `need(n.type == "task" && ...)`: an open task is replaced by its own resolution only.
unfoldable pub check_replaces : Option Entry → MemoryNote → Result (Unit {0})
check_replaces none n = ok tt
check_replaces (some old) n =
    require
      (not (has_status old.note (codes "open"))
        || (has_type n (codes "task")
            && (has_status n (codes "open")
                || has_status n (codes "closed")
                || has_status n (codes "retracted"))))
      "open task needs explicit resolution"

abbrev entry_id : Option Entry → Option Text
entry_id none = none
entry_id (some e) = some e.id

-- UPDATE memory_entries SET current=0 WHERE subject=? AND key=? AND current=1
unfoldable pub supersede : Text → Text → List Entry → List Entry
supersede subject key [] = []
supersede subject key (e ∷ rest) =
    (if is_current_at subject key e then record e { current = false } else e)
    ∷ supersede subject key rest

abbrev link : Text → Text → MemoryNote → Text → Link
link subject id n source = record {
  subject = subject;
  note = id;
  source = source;
  covers = contains n.covers source;
}

-- One round of the loop of `memory_apply`. `id` is the digest of the parent, the index and the note.
unfoldable pub apply_note :
    Text → ℕ → Text → List Text → Text → MemoryNote → MemoryDb → Result MemoryDb
unfolding source_bytes check_replaces supersede
apply_note subject tick commit writing id n db = do
  bytes ← source_bytes db.entries subject tick writing n n.sources
  require (is_empty n.covers || ltb (length n.text) bytes)
      "compaction must reduce source text bytes"
  let old = find (is_current_at subject n.key) db.entries
  check_replaces old n
  require (not (any (λ e. text_eq e.id id) db.entries)) "UNIQUE constraint failed"
  ok (record {
    entries =
        record {
          id = id;
          subject = subject;
          key = n.key;
          tick = tick;
          commit = commit;
          previous = entry_id old;
          note = n;
          current = true;
        }
        ∷ supersede subject n.key db.entries;
    links = map (link subject id n) n.sources ++ db.links;
  })

-- The digest of {"parent", "index", "note"}, which is computed by the hash library.
abbrev pub NoteDigest : Type 0
NoteDigest = Text → ℕ → MemoryNote → Text

unfoldable pub apply_notes :
    NoteDigest
    → Text
    → Text
    → ℕ
    → Text
    → List Text
    → ℕ
    → List MemoryNote
    → MemoryDb
    → Result MemoryDb
unfolding apply_note
apply_notes note_id subject parent tick commit writing index [] db = ok db
apply_notes note_id subject parent tick commit writing index (n ∷ rest) db = do
  next ← apply_note subject tick commit writing (note_id parent index n) n db
  apply_notes note_id subject parent tick commit writing (suc index) rest next

unfoldable pub memory_apply :
    NoteDigest → Text → Text → ℕ → Text → List MemoryNote → MemoryDb → Result MemoryDb
unfolding apply_notes
memory_apply note_id subject parent tick commit notes db = do
  validate_memory_notes notes
  apply_notes note_id subject parent tick commit (map (λ n. n.key) notes) 0 notes db

-- An item of the memory view that was frozen at admission.
pub record ViewItem : Type 0 where
  pub key : Text
  pub text : Text
  pub item_status : Text

abbrev settles : MemoryNote → ViewItem → Bool
settles n item =
    text_eq item.key n.key
    && text_eq item.text n.text
    && text_eq item.item_status (codes "open")
    && (has_status n (codes "closed") || has_status n (codes "retracted"))
    && is_empty n.sources
    && is_empty n.covers

unfoldable pub check_settlements : List ViewItem → List MemoryNote → Result (Unit {0})
check_settlements items [] = ok tt
check_settlements items (n ∷ rest) = do
  require (not (has_type n (codes "task")) || any (settles n) items)
      "maintenance may only settle named tasks with unchanged terms"
  check_settlements items rest
