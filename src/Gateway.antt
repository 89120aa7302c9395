-- ===== src/Gateway.antt =====
-- internal/codexlocalgateway/store.go: responseStore, which keeps the messages of a response for
-- the request that continues it. A map is a list of entries, in the order in which `range` meets
-- them. Values are not shared, so cloneMessages has nothing to do and `M` stands for []chatMessage.
-- Integers that are not positive are 0 here, as the constructor treats them alike.
pub mod Laws
pub mod Room
use ia_lab.Prelude.{
  ℕ, ◌+◌, ◌*◌, String, Bool, true, not, ◌||◌, Option, none, some, List, [], ◌∷◌, is_empty, str_eq,
  ltb, leb, ◌==◌, length, filter, find, if◌then◌else◌,
}

pub record ResponseState (M : Type 0) : Type 0 where
  pub id : String
  pub messages : M
  pub expires_at : ℕ

pub record ResponseStore (M : Type 0) : Type 0 where
  pub ttl : ℕ
  pub max_entries : ℕ
  pub items : List (ResponseState M)

-- The variables `oldestID` and `oldest` of the search.
pub record Oldest : Type 0 where
  pub oldest_id : String
  pub oldest : ℕ

abbrev nanoseconds : ℕ
nanoseconds = 1000000000

abbrev pub nothing_yet : Oldest
nothing_yet = record { oldest_id = ""; oldest = 0 }

module _ {M : Type 0} where
  unfoldable pub new_response_store : ℕ → ℕ → ResponseStore M
  new_response_store ttl max_entries = record {
    ttl = if ttl == 0 then 30 * 60 * nanoseconds else ttl;
    max_entries = if max_entries == 0 then 256 else max_entries;
    items = [];
  }

  -- items[id]
  abbrev pub lookup : String → List (ResponseState M) → Option (ResponseState M)
  lookup id items = find (λ i. str_eq i.id id) items

  -- delete(items, id)
  abbrev pub delete : String → List (ResponseState M) → List (ResponseState M)
  delete id items = filter (λ i. not (str_eq i.id id)) items

  abbrev get_found :
      String → ℕ → Option (ResponseState M) → ResponseStore M → ResponseStore M × Option M
  get_found id now none s = (s, none)
  get_found id now (some state) s =
      if ltb state.expires_at now
      then (record s { items = delete id s.items }, none)
      else (s, some state.messages)

  unfoldable pub get : String → ℕ → ResponseStore M → ResponseStore M × Option M
  get id now s = get_found id now (lookup id s.items) s

  abbrev pub evict_expired : ℕ → List (ResponseState M) → List (ResponseState M)
  evict_expired now items = filter (λ i. not (ltb i.expires_at now)) items

  -- One round of the loop that looks for the oldest entry.
  unfoldable pub older_of : ResponseState M → Oldest → Oldest
  older_of i o =
      if is_empty o.oldest_id || ltb i.expires_at o.oldest
      then record { oldest_id = i.id; oldest = i.expires_at }
      else o

  unfoldable pub find_oldest : List (ResponseState M) → Oldest → Oldest
  find_oldest [] o = o
  find_oldest (i ∷ items) o = find_oldest items (older_of i o)

  -- The two guards of `set` that make room.
  unfoldable pub trim_expired : ℕ → ℕ → List (ResponseState M) → List (ResponseState M)
  trim_expired max_entries now items =
      if leb max_entries (length items) then evict_expired now items else items

  unfoldable pub trim_oldest : ℕ → List (ResponseState M) → List (ResponseState M)
  trim_oldest max_entries items =
      if leb max_entries (length items)
      then delete (find_oldest items nothing_yet).oldest_id items
      else items

  -- `evicted_at` and `stored_at` are the two readings of the clock.
  unfoldable pub set : String → M → ℕ → ℕ → ResponseStore M → ResponseStore M
  set id messages evicted_at stored_at s =
      let room = trim_oldest s.max_entries (trim_expired s.max_entries evicted_at s.items) in
      record s {
        items =
            record { id = id; messages = messages; expires_at = stored_at + s.ttl }
            ∷ delete id room;
      }
