-- ===== src/Signals.antt =====
-- Polling the archive of signals: the loop of `poll` over the objects of one worker, its cursor, and
-- the filter of a subscription, in src/clonway_cockpit/signals/subscribe.py. The ISO date of an object
-- is a number that orders as its text does. A cursor is what `_decode_cursor` gives of its token. The
-- bucket, the consumer and the cursor store are functions; `Sig` is the signal, of which the filter
-- reads the kind and the urgency, and `W` what the consumer and the store change.
pub mod Marks
pub mod Loop
pub mod Delivered
mod Tests
use clonway_cockpit.Prelude.{
  ℕ, zero, suc, ◌+◌, ◌-◌, ◌*◌, ◌/◌, ◌%◌, ◌≤◌, ◌<◌, min, max, String, ◌≡◌, refl, sym, ap, ◌∙◌, ◌≢◌,
  ◌↔◌, ◌⊎◌, inl, inr, Bool, true, false, not, ◌&&◌, ◌||◌, Option, none, some, List, [], ◌∷◌, ◌++◌,
  map, arith, ◌==◌, eq_iff, eq_refl, ltb, leb, nat_eq, if◌then◌else◌, ltb→lt, leb→le, Bool-cases,
  Option-cases, is_some, length, take, drop, any, all, keep, All, length-append, elem, Distinct,
  elem-append, All-append,
}

unfoldable pub urgency_rank : String → ℕ
urgency_rank u =
    if u == "soon" then 1 else if u == "due" then 2 else if u == "overdue" then 3 else 0

pub record Subscription : Type 0 where
  pub consumer_id : String
  pub workers : Option (List String)
  pub kinds : Option (List String)
  pub min_urgency : Option String

-- signals/<worker>/<date>/<run_id>.jsonl
pub record ArchiveObject : Type 0 where
  pub date : ℕ
  pub run_id : String

pub record Cursor : Type 0 where
  pub active_date : Option ℕ
  pub processed : List String

-- already processed: the objects that `_archive_objects_after` leaves out
unfoldable pub is_done : Cursor → ArchiveObject → Bool
is_done c o = elim c.active_date [
  | none ↦ false
  | some d ↦ ltb o.date d || (nat_eq o.date d && elem o.run_id c.processed)
]

-- _archive_objects_after, on the names of the worker in their order
unfoldable pub archive_objects_after : Cursor → List ArchiveObject → List ArchiveObject
unfolding is_done
archive_objects_after c = keep (λ o. not (is_done c o))

-- the cursor once an object is processed
unfoldable pub advance : Cursor → ArchiveObject → Cursor
advance c o = elim c.active_date [
  | none ↦ record { active_date = some o.date; processed = o.run_id ∷ [] }
  | some d ↦
      if ltb d o.date
      then record { active_date = some o.date; processed = o.run_id ∷ [] }
      else record { active_date = some d; processed = o.run_id ∷ c.processed }
]

pub record Delivery (Sig : Type 0) : Type 0 where
  pub signal : Sig
  pub object : ArchiveObject

pub record Bus (Sig W : Type 0) : Type 0 where
  pub kind : Sig → String
  pub urgency : Sig → String
  -- _read_signals; none is the _ArchiveReadError
  pub read_signals : ArchiveObject → Option (List Sig)
  -- on_delivery, and whether it returned
  pub on_delivery : Delivery Sig → W → Bool × W
  -- cursor_store.save, and whether it returned
  pub save : Cursor → W → Bool × W

-- the locals of the loop, what the store holds, and the world
pub record Polling (Sig W : Type 0) : Type 0 where
  pub cursor : Cursor
  pub stored : Cursor
  pub deliveries : List (Delivery Sig)
  pub world : W

module _ {Sig W : Type 0} (bus : Bus Sig W) (sub : Subscription) where
  -- _matches
  unfoldable pub matches : Sig → Bool
  unfolding urgency_rank
  matches s =
      (elim sub.kinds [ none ↦ true | some ks ↦ elem (bus.kind s) ks ]) && (elim sub.min_urgency [
        | none ↦ true
        | some u ↦ leb (urgency_rank u) (urgency_rank (bus.urgency s))
      ])

  -- the deliveries of one object, and whether every callback returned
  unfoldable pub deliver : ArchiveObject → List Sig → Polling Sig W → Bool × Polling Sig W
  unfolding matches
  deliver o [] p = (true, p)
  deliver o (s ∷ ss) p =
      let d : Delivery Sig = record { signal = s; object = o } in
      let (ok, w) = bus.on_delivery d p.world in
      let here = record p { deliveries = p.deliveries ++ d ∷ []; world = w } in
      let skipped = deliver o ss p in
      let rest = deliver o ss here in
      if matches s then if ok then rest else (false, here) else skipped

  -- the cursor advances, and is saved if the store takes it
  unfoldable pub commit : ArchiveObject → Polling Sig W → Polling Sig W
  unfolding advance
  commit o p =
      let c = advance p.cursor o in
      let (ok, w) = bus.save c p.world in
      record p { cursor = c; stored = if ok then c else p.stored; world = w }

  -- what follows the deliveries of an object
  unfoldable pub after_deliver :
      ArchiveObject → Bool × Polling Sig W → (Polling Sig W → Polling Sig W) → Polling Sig W
  unfolding commit
  after_deliver o (false, p) next = p
  after_deliver o (true, p) next = next (commit o p)

  -- for obj_name in obj_names
  unfoldable pub poll_objects : List ArchiveObject → Polling Sig W → Polling Sig W
  unfolding deliver after_deliver
  poll_objects [] p = p
  poll_objects (o ∷ os) p = elim (bus.read_signals o) [
    | none ↦ p
    | some ss ↦ after_deliver o (deliver o ss p) (poll_objects os)
  ]

  -- poll, for one worker
  unfoldable pub poll_worker : List ArchiveObject → Cursor → W → Polling Sig W
  unfolding poll_objects archive_objects_after
  poll_worker listing c w =
      poll_objects (archive_objects_after c listing)
        (record { cursor = c; stored = c; deliveries = []; world = w })
