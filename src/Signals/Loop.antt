-- ===== src/Signals/Loop.antt =====
-- signals/subscribe.py
-- The loop of `poll` over the objects of a worker: what it delivers, and what it marks.
use clonway_cockpit.Prelude.{
  ◌≡◌, refl, sym, ap, ◌∙◌, inl, inr, Bool, true, false, ◌||◌, none, some, List, [], ◌∷◌, ◌++◌,
  arith, Bool-cases, Option-cases, any, All, All-append,
}
use mathlib.Core.Path.{subst}
use clonway_cockpit.Prelude.{some_eq}
use clonway_cockpit.Signals.{
  Subscription, ArchiveObject, Cursor, is_done, advance, Delivery, Bus, Polling, matches, deliver,
  commit, after_deliver, poll_objects,
}
use clonway_cockpit.Signals.Marks.{Ordered, covers, NotBefore, advance-done, NotBefore-next}

-- `Got d w`, that the consumer has the delivery `d` in the world `w`: it has it once its callback for
-- it returned, and neither a further call, returned or raised, nor a save of the cursor takes it away.
pub record IsConsumer {Sig W : Type 0} (bus : Bus Sig W) (Got : Delivery Sig → W → Type 0)
    : Type 0 where
  pub takes :
      (d : Delivery Sig) (w : W) → (bus.on_delivery d w).0 ≡ true → Got d (bus.on_delivery d w).1
  pub holds : (d e : Delivery Sig) (w : W) → Got d w → Got d (bus.on_delivery e w).1
  pub saves : (d : Delivery Sig) (c : Cursor) (w : W) → Got d w → Got d (bus.save c w).1

module _ {Sig W : Type 0} (bus : Bus Sig W) (sub : Subscription) where
  -- the consumer has every signal of the object that the subscription wants
  abbrev pub Delivered : (Delivery Sig → W → Type 0) → ArchiveObject → W → Type 0
  Delivered Got o w =
      (ss : List Sig)
      → bus.read_signals o ≡ some ss
      → All (λ (s : Sig). matches bus sub s ≡ true → Got (record { signal = s; object = o }) w) ss

module _ {Sig W : Type 0} (bus : Bus Sig W) (sub : Subscription) (Got : Delivery Sig → W → Type 0)
    (consumer : IsConsumer bus Got) where
  abbrev pub told : ArchiveObject → Sig → Polling Sig W → Polling Sig W
  told o s p = record p {
    deliveries = p.deliveries ++ record { signal = s; object = o } ∷ [];
    world = (bus.on_delivery (record { signal = s; object = o }) p.world).1;
  }

  abbrev pub returns : ArchiveObject → Sig → Polling Sig W → Bool
  returns o s p = (bus.on_delivery (record { signal = s; object = o }) p.world).0

  pub deliver_keeps :
      (o : ArchiveObject) (ss : List Sig) (p : Polling Sig W) (d : Delivery Sig)
      → Got d p.world
      → Got d (deliver bus sub o ss p).1.world
  unfolding deliver
  deliver_keeps o [] p d h = h
  deliver_keeps o (s ∷ ss) p d h = elim (Bool-cases (matches bus sub s)) [
    | inr other ↦ rw other (deliver_keeps o ss p d h)
    | inl wanted ↦ elim (Bool-cases (returns o s p)) [
      | inl ok ↦
          rw (wanted, ok)
            (deliver_keeps o ss (told o s p) d
              (consumer.holds d (record { signal = s; object = o }) p.world h))
      | inr failed ↦
          rw (wanted, failed) (consumer.holds d (record { signal = s; object = o }) p.world h)
    ]
  ]

  abbrev pub AllTold : ArchiveObject → List Sig → Bool × Polling Sig W → Type 0
  AllTold o ss r =
      All
        (λ (s : Sig). matches bus sub s ≡ true → Got (record { signal = s; object = o }) r.1.world)
        ss

  pub deliver_skip :
      (o : ArchiveObject) (s : Sig) (ss : List Sig) (p : Polling Sig W)
      → matches bus sub s ≡ false
      → deliver bus sub o (s ∷ ss) p ≡ deliver bus sub o ss p
  unfolding deliver
  deliver_skip o s ss p h = rw h refl

  pub deliver_ok :
      (o : ArchiveObject) (s : Sig) (ss : List Sig) (p : Polling Sig W)
      → matches bus sub s ≡ true
      → returns o s p ≡ true
      → deliver bus sub o (s ∷ ss) p ≡ deliver bus sub o ss (told o s p)
  unfolding deliver
  deliver_ok o s ss p h k = rw (h, k) refl

  pub deliver_all :
      (o : ArchiveObject) (ss : List Sig) (p : Polling Sig W)
      → (deliver bus sub o ss p).0 ≡ true
      → AllTold o ss (deliver bus sub o ss p)
  unfolding deliver
  deliver_all o [] p h = tt
  deliver_all o (s ∷ ss) p h = elim (Bool-cases (matches bus sub s)) [
    | inr other ↦
        subst (AllTold o (s ∷ ss)) (sym (deliver_skip o s ss p other))
          ((λ m. absurd (ground (arith, m, other))), deliver_all o ss p (rw (deliver, other) at h))
    | inl wanted ↦ elim (Bool-cases (returns o s p)) [
      | inl ok ↦ subst (AllTold o (s ∷ ss)) (sym (deliver_ok o s ss p wanted ok)) (
        (λ m. deliver_keeps o ss (told o s p) _ (consumer.takes _ p.world ok)),
        deliver_all o ss (told o s p) (rw (deliver, wanted, ok) at h),
      )
      | inr failed ↦ absurd (ground (arith, rw (deliver, wanted, failed) at h))
    ]
  ]

  pub deliver_same :
      (o : ArchiveObject) (ss : List Sig) (p : Polling Sig W)
      → ((deliver bus sub o ss p).1.cursor ≡ p.cursor)
        × ((deliver bus sub o ss p).1.stored ≡ p.stored)
  unfolding deliver
  deliver_same o [] p = (refl, refl)
  deliver_same o (s ∷ ss) p = elim (Bool-cases (matches bus sub s)) [
    | inr other ↦ rw other (deliver_same o ss p)
    | inl wanted ↦ elim (Bool-cases (returns o s p)) [
      | inl ok ↦ rw (wanted, ok) (deliver_same o ss (told o s p))
      | inr failed ↦ rw (wanted, failed) (refl, refl)
    ]
  ]

  -- after the handled objects `before`: what a cursor marks was done at the start or is covered by
  -- one of them, and all of them are delivered
  pub record IsFair (c0 : Cursor) (before : List ArchiveObject) (p : Polling Sig W) : Type 0 where
    pub marks :
        (x : ArchiveObject)
        → is_done p.cursor x ≡ true
        → (is_done c0 x || any (λ o. covers o x) before) ≡ true
    pub saved :
        (x : ArchiveObject)
        → is_done p.stored x ≡ true
        → (is_done c0 x || any (λ o. covers o x) before) ≡ true
    pub given : All (λ (o : ArchiveObject). Delivered bus sub Got o p.world) before

  pub Delivered-keeps :
      (os : List ArchiveObject) (w v : W)
      → ((d : Delivery Sig) → Got d w → Got d v)
      → All (λ (o : ArchiveObject). Delivered bus sub Got o w) os
      → All (λ (o : ArchiveObject). Delivered bus sub Got o v) os
  Delivered-keeps [] w v k h = tt
  Delivered-keeps (o ∷ os) w v k h =
      ((λ ss e. keep_all ss (h.0 ss e)), Delivered-keeps os w v k h.1)
    where
      keep_all :
          (ss : List Sig)
          → All
              (λ (s : Sig). matches bus sub s ≡ true → Got (record { signal = s; object = o }) w)
              ss
          → All
              (λ (s : Sig). matches bus sub s ≡ true → Got (record { signal = s; object = o }) v)
              ss
      keep_all [] g = tt
      keep_all (s ∷ ss) g = ((λ m. k _ (g.0 m)), keep_all ss g.1)

  pub any_snoc :
      (x o : ArchiveObject) (os : List ArchiveObject)
      → any (λ q. covers q x) (os ++ o ∷ []) ≡ (any (λ q. covers q x) os || covers o x)
  any_snoc x o [] = ground arith
  any_snoc x o (q ∷ os) = ground (arith, any_snoc x o os)

  -- one object that was read and delivered
  pub commit-IsFair :
      (c0 : Cursor) (before : List ArchiveObject) (o : ArchiveObject) (p : Polling Sig W)
      → NotBefore p.cursor.active_date o
      → Delivered bus sub Got o p.world
      → IsFair c0 before p
      → IsFair c0 (before ++ o ∷ []) (commit bus sub o p)
  unfolding commit
  commit-IsFair c0 before o p late told_all h =
      let marks' : (x : ArchiveObject)
          → is_done (advance p.cursor o) x ≡ true
          → (is_done c0 x || any (λ q. covers q x) (before ++ o ∷ [])) ≡ true =
        λ x m. ground (arith, any_snoc x o before, advance-done p.cursor o x late m, h.marks x) in
      record {
        marks = marks';
        saved = elim (Bool-cases (bus.save (advance p.cursor o) p.world).0) [
          | inl ok ↦ rw ok marks'
          | inr failed ↦ rw failed (λ x m. ground (arith, any_snoc x o before, h.saved x m))
        ];
        given =
            Delivered-keeps (before ++ o ∷ []) p.world (commit bus sub o p).world
              (λ d g. consumer.saves d (advance p.cursor o) p.world g)
              (All-append (λ (q : ArchiveObject). Delivered bus sub Got q p.world) before (o ∷ [])
                h.given (told_all, tt));
      }

  pub deliver-IsFair :
      (c0 : Cursor) (before : List ArchiveObject) (o : ArchiveObject) (ss : List Sig)
      (p : Polling Sig W)
      → IsFair c0 before p
      → IsFair c0 before (deliver bus sub o ss p).1
  deliver-IsFair c0 before o ss p h =
      let same = deliver_same o ss p in
      record {
        marks = rw (same.0) h.marks;
        saved = rw (same.1) h.saved;
        given = Delivered-keeps before p.world _ (deliver_keeps o ss p) h.given;
      }

  pub poll_none :
      (o : ArchiveObject) (os : List ArchiveObject) (p : Polling Sig W)
      → bus.read_signals o ≡ none
      → poll_objects bus sub (o ∷ os) p ≡ p
  unfolding poll_objects
  poll_none o os p e = rw (poll_objects, e) refl

  pub poll_stop :
      (o : ArchiveObject) (os : List ArchiveObject) (ss : List Sig) (p : Polling Sig W)
      → bus.read_signals o ≡ some ss
      → (deliver bus sub o ss p).0 ≡ false
      → poll_objects bus sub (o ∷ os) p ≡ (deliver bus sub o ss p).1
  unfolding poll_objects after_deliver
  poll_stop o os ss p e h = rw (poll_objects, e, after_deliver, h) refl

  pub poll_go :
      (o : ArchiveObject) (os : List ArchiveObject) (ss : List Sig) (p : Polling Sig W)
      → bus.read_signals o ≡ some ss
      → (deliver bus sub o ss p).0 ≡ true
      → poll_objects bus sub (o ∷ os) p
        ≡ poll_objects bus sub os (commit bus sub o (deliver bus sub o ss p).1)
  unfolding poll_objects after_deliver
  poll_go o os ss p e h = rw (poll_objects, e, after_deliver, h) refl

  pub shift :
      (xs : List ArchiveObject) (y : ArchiveObject) (ys : List ArchiveObject)
      → xs ++ y ∷ ys ≡ (xs ++ y ∷ []) ++ ys
  shift [] y ys = refl
  shift (x ∷ xs) y ys = ap (λ l. x ∷ l) (shift xs y ys)

  pub commit_cursor :
      (o : ArchiveObject) (p : Polling Sig W) → (commit bus sub o p).cursor ≡ advance p.cursor o
  unfolding commit
  commit_cursor o p = refl

  pub read_eq :
      (o : ArchiveObject) (ss ts : List Sig)
      → bus.read_signals o ≡ some ss
      → bus.read_signals o ≡ some ts
      → ss ≡ ts
  read_eq o ss ts e f = some_eq (sym e ∙ f)

  -- the objects split where the loop stopped
  pub poll-IsFair :
      (c0 : Cursor) (before os : List ArchiveObject) (p : Polling Sig W)
      → Ordered os
      → All (NotBefore p.cursor.active_date) os
      → IsFair c0 before p
      → (done : List ArchiveObject) × (rest : List ArchiveObject) × (before ++ os ≡ done ++ rest)
        × IsFair c0 done (poll_objects bus sub os p)
  unfolding poll_objects after_deliver
  poll-IsFair c0 before [] p ord late h = (before, [], refl, h)
  poll-IsFair c0 before (o ∷ os) p ord late h = elim (Option-cases (bus.read_signals o)) [
    | inl bad ↦ (before, o ∷ os, refl, subst (IsFair c0 before) (sym (poll_none o os p bad)) h)
    | inr (ss, read) ↦
        let r = deliver bus sub o ss p in
        let fair = deliver-IsFair c0 before o ss p h in
        elim (Bool-cases (deliver bus sub o ss p).0) [
          | inr failed ↦ (
            before,
            o ∷ os,
            refl,
            subst (IsFair c0 before) (sym (poll_stop o os ss p read failed)) fair,
          )
          | inl ok ↦
              let same : r.1.cursor ≡ p.cursor = (deliver_same o ss p).0 in
              let given_o : Delivered bus sub Got o r.1.world = λ ts e.
                subst (λ us. AllTold o us r) (read_eq o ss ts read e) (deliver_all o ss p ok) in
              let late_o : NotBefore r.1.cursor.active_date o =
                subst (λ c. NotBefore c.active_date o) (sym same) late.0 in
              let next = commit-IsFair c0 before o r.1 late_o given_o fair in
              let late_os : All (NotBefore (commit bus sub o r.1).cursor.active_date) os =
                subst (λ c. All (NotBefore c.active_date) os) (sym (commit_cursor o r.1))
                  (NotBefore-next r.1.cursor o os late_o ord.0) in
              let (done, rest, split, end) =
                poll-IsFair c0 (before ++ o ∷ []) os (commit bus sub o r.1) ord.1 late_os next in
              (
                done,
                rest,
                shift before o os ∙ split,
                subst (IsFair c0 done) (sym (poll_go o os ss p read ok)) end,
              )
        ]
  ]

  pub start-IsFair :
      (c : Cursor) (w : W)
      → IsFair c [] (record { cursor = c; stored = c; deliveries = []; world = w })
  start-IsFair c w = record {
    marks = λ x m. ground (arith, m);
    saved = λ x m. ground (arith, m);
    given = tt;
  }
