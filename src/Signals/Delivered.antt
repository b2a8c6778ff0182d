-- ===== src/Signals/Delivered.antt =====
-- signals/subscribe.py
-- What the cursor marks as done was delivered.
use clonway_cockpit.Prelude.{
  ◌≤◌, ◌≡◌, ◌⊎◌, inl, inr, true, List, [], ◌∷◌, ◌++◌, arith, Bool-cases, any, All,
}
use mathlib.Core.Path.{subst}
use clonway_cockpit.Signals.{
  Subscription, ArchiveObject, Cursor, is_done, archive_objects_after, Delivery, Bus, Polling,
  poll_objects, poll_worker,
}
use clonway_cockpit.Signals.Marks.{
  In, Ordered, covers, All-In, In-right, In-split, same_name, left-Ordered, left-NotBefore,
  In-left_over,
}
use clonway_cockpit.Signals.Loop.{IsConsumer, Delivered, poll-IsFair, start-IsFair}

module _ {Sig W : Type 0} (bus : Bus Sig W) (sub : Subscription)
    (Got : Delivery Sig → W → Type 0) where
  covered_rest :
      (done rest : List ArchiveObject) (x : ArchiveObject) (ds : W)
      → Ordered (done ++ rest)
      → In x rest
      → any (λ o. covers o x) done ≡ true
      → All (λ (o : ArchiveObject). Delivered bus sub Got o ds) done
      → Delivered bus sub Got x ds
  covered_rest [] rest x ds ord i c given = absurd (ground (arith, c))
  covered_rest (b ∷ done) rest x ds ord i c given = elim (Bool-cases (covers b x)) [
    | inl here ↦
        subst (λ y. Delivered bus sub Got y ds)
          (same_name b x
            (All-In (λ q. b.date ≤ q.date) (done ++ rest) x ord.0 (In-right done rest x i)) here)
          given.0
    | inr other ↦ covered_rest done rest x ds ord.1 i (ground (arith, other, c)) given.1
  ]

-- Delivery is at least once: let a consumer have what its callback returned for, and lose none of it
-- to a further callback or to a save. In a listing in the order of its dates, an object that the
-- stored cursor marks as done after a poll was marked before it, or at the end of the poll the
-- consumer has every signal of it that the subscription wants, whatever reads, callbacks and saves
-- failed.
pub poll_worker-Delivered :
    {Sig W : Type 0} (bus : Bus Sig W) (sub : Subscription) (Got : Delivery Sig → W → Type 0)
    → IsConsumer bus Got
    → (listing : List ArchiveObject) (c : Cursor) (w : W) (x : ArchiveObject) → Ordered listing
    → In x listing
    → is_done (poll_worker bus sub listing c w).stored x ≡ true
    → (is_done c x ≡ true) ⊎ Delivered bus sub Got x (poll_worker bus sub listing c w).world
unfolding poll_worker
poll_worker-Delivered bus sub Got consumer listing c w x ord there marked =
    let left = archive_objects_after c listing in
    let start : Polling _ _ = record { cursor = c; stored = c; deliveries = []; world = w } in
    let ord_left : Ordered left = left-Ordered c listing ord in
    let (done, rest, split, fair) =
      poll-IsFair bus sub Got consumer c [] left start ord_left (left-NotBefore c listing)
        (start-IsFair bus sub Got consumer c w) in
    elim (Bool-cases (is_done c x)) [
      | inl before ↦ inl before
      | inr fresh ↦
          let covered : any (λ o. covers o x) done ≡ true =
            ground (arith, fresh, fair.saved x marked) in
          let i : In x (done ++ rest) = subst (In x) split (In-left_over c listing x there fresh) in
          let ord' : Ordered (done ++ rest) = subst Ordered split ord_left in
          inr (elim (In-split done rest x i) [
            | inl l ↦
                All-In (λ o. Delivered bus sub Got o (poll_objects bus sub left start).world) done x
                  fair.given l
            | inr r ↦ covered_rest bus sub Got done rest x _ ord' r covered fair.given
          ])
    ]
