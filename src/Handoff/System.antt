-- ===== src/Handoff/System.antt =====
-- Histories of the table: any sequence of the store's operations with any arguments. Whatever service
-- methods run at once, the table goes through such a history, and each await of a method meets one of
-- its tables.
pub mod Signing
pub mod Completed
pub mod Binding
use openkey.Common.{ℕ, String, ◌≡◌, Bool, none, some, Option, List, [], arith, ◌⊎◌, inl, inr}
use mathlib.Core.Path.{subst}
use openkey.Handoff.Types.{PreparedHandoffRecord, pending}
use openkey.Handoff.Store.{
  Table, find_row, create_limited, bind, reserve, cancel, can_bind, set_bound, can_reserve,
  set_consumed, can_cancel, set_cancelled,
}
use openkey.Handoff.Store.Laws.{IsWell, Evolves, bind-Keeps, reserve-Keeps, cancel-Keeps}
use openkey.Handoff.Store.Follows.{
  IsTable, Follows, Follows-refl, Follows-trans, change_if-Follows, change_if-IsTable,
}
use openkey.Handoff.Store.Create.{create_limited-Follows, create_limited-IsTable}

-- A row that is created is pending and bound to no context, as `claim` makes it.
pub data Step (t u : Table) : Type 0 where
  creates :
      (r : PreparedHandoffRecord) (since limit : ℕ) (stored : Option PreparedHandoffRecord)
      → r.status ≡ pending
      → r.context_token_hash ≡ none
      → r.selected_key_id ≡ none
      → create_limited r since limit t ≡ (u, stored)
      → Step t u
  binds :
      (hash user_id token_hash key_id : String) (now : ℕ) (done : Bool)
      → bind hash user_id token_hash key_id now t ≡ (u, done)
      → Step t u
  reserves :
      (hash user_id token_hash key_id : String) (now : ℕ) (done : Bool)
      → reserve hash user_id token_hash key_id now t ≡ (u, done)
      → Step t u
  cancels :
      (hash : String) (now : ℕ) (owner_id : Option String) (done : Bool)
      → cancel hash now owner_id t ≡ (u, done)
      → Step t u

pub data Reach (t : Table) : Table → Type 0 where
  start_here : Reach t t
  next : {u v : Table} → Reach t u → Step u v → Reach t v

pub Reach-trans : {t u v : Table} → Reach t u → Reach u v → Reach t v
Reach-trans a start_here = a
Reach-trans a (next r s) = next (Reach-trans a r) s

Step-Follows : {t u : Table} → Step t u → Follows t u
unfolding bind reserve cancel
Step-Follows {t} {u} (creates r since limit stored a b c e) =
    create_limited-Follows r since limit t u stored e
Step-Follows {t} {u} (binds hash user_id token_hash key_id now done e) =
    change_if-Follows hash (can_bind user_id now) (set_bound token_hash key_id)
      (bind-Keeps user_id token_hash key_id now) t u done e
Step-Follows {t} {u} (reserves hash user_id token_hash key_id now done e) =
    change_if-Follows hash (can_reserve user_id token_hash key_id now) set_consumed
      (reserve-Keeps user_id token_hash key_id now) t u done e
Step-Follows {t} {u} (cancels hash now owner_id done e) =
    change_if-Follows hash (can_cancel owner_id now) set_cancelled (cancel-Keeps owner_id now) t u
      done e

Step-IsTable : {t u : Table} → Step t u → IsTable t → IsTable u
unfolding bind reserve cancel
Step-IsTable {t} {u} (creates r since limit stored a b c e) =
    create_limited-IsTable r since limit t u stored e (ground arith)
Step-IsTable {t} {u} (binds hash user_id token_hash key_id now done e) =
    change_if-IsTable hash (can_bind user_id now) (set_bound token_hash key_id)
      (bind-Keeps user_id token_hash key_id now) t u done e
Step-IsTable {t} {u} (reserves hash user_id token_hash key_id now done e) =
    change_if-IsTable hash (can_reserve user_id token_hash key_id now) set_consumed
      (reserve-Keeps user_id token_hash key_id now) t u done e
Step-IsTable {t} {u} (cancels hash now owner_id done e) =
    change_if-IsTable hash (can_cancel owner_id now) set_cancelled (cancel-Keeps owner_id now) t u
      done e

pub Reach-Follows : {t u : Table} → Reach t u → Follows t u
Reach-Follows {t} start_here = Follows-refl t
Reach-Follows {t} (next {u} {v} r s) = Follows-trans t u v (Reach-Follows r) (Step-Follows s)

-- After any history from an empty table, a ticket, and a nonce of one owner, stand in one row, and a
-- row has its context together with its key, and both if it is signed.
pub Reach-IsTable : (t : Table) → Reach [] t → IsTable t
Reach-IsTable t start_here = record {
  tickets = λ h. omega arith;
  nonces = λ o n. omega arith;
  well = tt;
}
Reach-IsTable t (next {u} r s) = Step-IsTable s (Reach-IsTable u r)
