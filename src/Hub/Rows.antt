-- ===== src/Hub/Rows.antt =====
-- src/services/AgentHubStore.ts: the identifiers of ordered, cut and chosen rows of the outbox.
use kovael.Common.{
  ℕ, zero, suc, ◌≡◌, refl, ap, ◌∙◌, String, Bool, false, ◌||◌, List, [], ◌∷◌, arith, str_eq, eq_iff,
  take,
}
use kovael.Dispatches.{contains}
use kovael.Hub.{Outbound}
use kovael.Hub.Outbox.{rows_in, order_rows, insert_row, ids}

contains-insert :
    (less : Outbound → Outbound → Bool) (id : String) (x : Outbound) (xs : List Outbound)
    → contains id (ids (insert_row less x xs)) ≡ (str_eq x.id id || contains id (ids xs))
unfolding insert_row ids contains
contains-insert less id x [] = refl
contains-insert less id x (y ∷ ys) = ground (arith, contains-insert less id x ys)

pub contains-order :
    (less : Outbound → Outbound → Bool) (id : String) (xs : List Outbound)
    → contains id (ids (order_rows less xs)) ≡ contains id (ids xs)
unfolding order_rows ids contains
contains-order less id [] = refl
contains-order less id (x ∷ xs) =
    contains-insert less id x (order_rows less xs)
    ∙ ap (λ b. str_eq x.id id || b) (contains-order less id xs)

pub contains-take :
    (n : ℕ) (id : String) (xs : List Outbound)
    → contains id (ids xs) ≡ false
    → contains id (ids (take n xs)) ≡ false
unfolding take ids contains
contains-take zero id xs h = refl
contains-take (suc n) id [] h = refl
contains-take (suc n) id (x ∷ xs) h = ground (arith, contains-take n id xs)

pub contains-rows_in :
    (chosen : List String) (id : String) (xs : List Outbound)
    → contains id chosen ≡ false
    → contains id (ids (rows_in chosen xs)) ≡ false
unfolding rows_in ids contains
contains-rows_in chosen id [] h = refl
contains-rows_in chosen id (x ∷ xs) h =
    ground (arith, contains-rows_in chosen id xs h, eq_iff x.id id)
