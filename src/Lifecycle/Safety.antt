-- ===== src/Lifecycle/Safety.antt =====
-- The invariant holds after every change, so after any interleaving of requests and tasks.
use dodo_invoice_service.Base.{arith}
use dodo_invoice_service.Lifecycle.{
  verdict, Shop, Change, create, move, claim, spawn, settle, Reach, here, next,
}
use dodo_invoice_service.Lifecycle.Tables.{count-id-cons, count-id-settle, attempt_of-settle}
use dodo_invoice_service.Lifecycle.Invariant.{
  IsConsistent, create-IsConsistent, move-At, claim-At, settle-At,
}

-- Every change keeps the invariant.
pub Change-IsConsistent : {s t : Shop} → IsConsistent s → Change s t → IsConsistent t
Change-IsConsistent {s} c (create row d fresh e) = rw e (create-IsConsistent c row d fresh)
Change-IsConsistent {s} c (move i now edge np h e) = rw e (record {
  at_invoice = move-At c i now edge np h;
  attempt_once = c.attempt_once;
  owned = c.owned;
})
Change-IsConsistent {s} c (claim a p o fresh free e) = rw e (record {
  at_invoice = claim-At c a p o free;
  attempt_once = λ k. count-id-cons a k s.attempts fresh (c.attempt_once k);
  owned = λ k i h. ground (arith, c.owned k i h);
})
Change-IsConsistent {s} c (spawn task known e) = rw e (record {
  at_invoice = λ i. ground (arith, c.at_invoice i);
  attempt_once = c.attempt_once;
  owned = λ a i h. ground (arith, c.owned a i);
})
Change-IsConsistent {s} c (settle a i outcome now h due e) = rw e (record {
  at_invoice = settle-At c a i outcome now (c.owned a i h) due;
  attempt_once = λ k. rw (count-id-settle a (verdict outcome) now k s.attempts) (c.attempt_once k);
  owned = λ k j t. rw (attempt_of-settle a (verdict outcome) now k j s.attempts) (c.owned k j t);
})

pub Reach-IsConsistent : {s t : Shop} → IsConsistent s → Reach s t → IsConsistent t
Reach-IsConsistent c here = c
Reach-IsConsistent c (next r ch) = Change-IsConsistent (Reach-IsConsistent c r) ch
