-- ===== src/Handoff/Store.antt =====
-- `MemoryPreparedHandoffStore`: the values of its Map in the order of insertion. `ticketHash` is the
-- key, and an operation finds and changes the first row of a key.
pub mod Laws
pub mod Follows
pub mod Limit
pub mod Create
use openkey.Common.{
  ℕ, suc, String, Bool, true, false, not, ◌&&◌, ◌||◌, Option, none, some, List, [], ◌∷◌, ◌++◌, ◌==◌,
  ltb, leb, if◌then◌else◌, find, is_some,
}
use openkey.Handoff.Types.{Status, pending, cancelled, consumed, PreparedHandoffRecord}

abbrev pub Table : Type 0
Table = List PreparedHandoffRecord

abbrev pub is_pending : Status → Bool
is_pending pending = true
is_pending cancelled = false
is_pending consumed = false

abbrev pub holds : Option String → String → Bool
holds none s = false
holds (some t) s = t == s

-- The same ticket, or the same nonce of one owner.
abbrev pub collides : PreparedHandoffRecord → PreparedHandoffRecord → Bool
collides record_ current =
    current.ticket_hash == record_.ticket_hash
    || (current.owner_id == record_.owner_id && current.nonce_hash == record_.nonce_hash)

abbrev pub is_recent : String → ℕ → PreparedHandoffRecord → Bool
is_recent owner_id since current = current.owner_id == owner_id && leb since current.requested_at

-- The loop of `createLimited`: the row that it returns, or the count.
pub data Scanned : Type 0 where
  is_current : PreparedHandoffRecord → Scanned
  is_counted : ℕ → Scanned

unfoldable pub scan : PreparedHandoffRecord → ℕ → ℕ → Table → Scanned
scan record_ since n [] = is_counted n
scan record_ since n (current ∷ t) =
    let rest =
      scan record_ since (if is_recent record_.owner_id since current then suc n else n) t in
    if collides record_ current then is_current current else rest

unfoldable pub create_limited :
    PreparedHandoffRecord → ℕ → ℕ → Table → Table × Option PreparedHandoffRecord
create_limited record_ since limit t = elim (scan record_ since 0 t) [
  | is_current current ↦ (t, some current)
  | is_counted n ↦ if leb limit n then (t, none) else (t ++ record_ ∷ [], some record_)
]

unfoldable pub find_row : String → Table → Option PreparedHandoffRecord
find_row hash = find (λ r. r.ticket_hash == hash)

-- A change of the row that `get` finds.
unfoldable pub update : String → (PreparedHandoffRecord → PreparedHandoffRecord) → Table → Table
update hash change [] = []
update hash change (r ∷ t) =
    let rest = update hash change t in if r.ticket_hash == hash then change r ∷ t else r ∷ rest

-- A guarded change: `false`, with nothing changed, where the row is missing or the guard fails.
unfoldable pub change_if :
    String
    → (PreparedHandoffRecord → Bool)
    → (PreparedHandoffRecord → PreparedHandoffRecord)
    → Table
    → Table × Bool
change_if hash guard change t = elim (find_row hash t) [
  | none ↦ (t, false)
  | some r ↦ if guard r then (update hash change t, true) else (t, false)
]

abbrev pub can_bind : String → ℕ → PreparedHandoffRecord → Bool
can_bind user_id now r =
    is_pending r.status
    && r.owner_id == user_id
    && not (is_some r.context_token_hash)
    && ltb now r.expires_at

abbrev pub set_bound : String → String → PreparedHandoffRecord → PreparedHandoffRecord
set_bound token_hash key_id r = record r {
  context_token_hash = some token_hash;
  selected_key_id = some key_id;
}

unfoldable pub bind : String → String → String → String → ℕ → Table → Table × Bool
bind hash user_id token_hash key_id now =
    change_if hash (can_bind user_id now) (set_bound token_hash key_id)

abbrev pub can_reserve : String → String → String → ℕ → PreparedHandoffRecord → Bool
can_reserve user_id token_hash key_id now r =
    is_pending r.status
    && r.owner_id == user_id
    && holds r.context_token_hash token_hash
    && holds r.selected_key_id key_id
    && ltb now r.expires_at

abbrev pub set_consumed : PreparedHandoffRecord → PreparedHandoffRecord
set_consumed r = record r { status = consumed }

unfoldable pub reserve : String → String → String → String → ℕ → Table → Table × Bool
reserve hash user_id token_hash key_id now =
    change_if hash (can_reserve user_id token_hash key_id now) set_consumed

-- The owner is checked where one is given.
abbrev pub can_cancel : Option String → ℕ → PreparedHandoffRecord → Bool
can_cancel none now r = is_pending r.status && ltb now r.expires_at
can_cancel (some owner_id) now r =
    is_pending r.status && ltb now r.expires_at && r.owner_id == owner_id

abbrev pub set_cancelled : PreparedHandoffRecord → PreparedHandoffRecord
set_cancelled r = record r { status = cancelled }

unfoldable pub cancel : String → ℕ → Option String → Table → Table × Bool
cancel hash now owner_id = change_if hash (can_cancel owner_id now) set_cancelled
