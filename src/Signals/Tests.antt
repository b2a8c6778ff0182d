-- ===== src/Signals/Tests.antt =====
-- A poll of signals/subscribe.py whose consumer fails on the second object.
use clonway_cockpit.Prelude.{
  String, ◌≡◌, refl, ◌⊎◌, inl, inr, Bool, true, false, none, some, List, [], ◌∷◌, ◌++◌, arith,
}
use clonway_cockpit.Signals.{
  Subscription, ArchiveObject, Cursor, Delivery, is_done, Bus, poll_worker,
}
use clonway_cockpit.Signals.Delivered
use clonway_cockpit.Signals.Loop.{Delivered, IsConsumer}
use clonway_cockpit.Signals.Marks.{Ordered, In, In-left, In-last}

abbrev everything : Subscription
everything = record {
  consumer_id = "desk";
  workers = none;
  kinds = none;
  min_urgency = some "soon";
}

-- a signal is its urgency; the world is what the consumer has, and which calls it still refuses
abbrev World : Type 0
World = List (Delivery String) × List Bool

abbrev takes_next : Delivery String → World → Bool × World
takes_next d (had, []) = (true, (had ++ d ∷ [], []))
takes_next d (had, true ∷ plan) = (true, (had ++ d ∷ [], plan))
takes_next d (had, false ∷ plan) = (false, (had, plan))

-- the consumer fails on its second call
abbrev bus : Bus String World
bus = record {
  kind = λ s. "action.required";
  urgency = λ s. s;
  read_signals = λ o. some ("due" ∷ "info" ∷ []);
  on_delivery = takes_next;
  save = λ c w. (true, w);
}

abbrev Got : Delivery String → World → Type 0
Got d w = In d w.0

abbrev fresh : World
fresh = ([], true ∷ false ∷ [])

Got-taken : (d : Delivery String) (w : World) → (takes_next d w).0 ≡ true → Got d (takes_next d w).1
Got-taken d (had, []) h = In-last had d
Got-taken d (had, true ∷ plan) h = In-last had d
Got-taken d (had, false ∷ plan) h = absurd (ground (arith, h))

Got-held : (d e : Delivery String) (w : World) → Got d w → Got d (takes_next e w).1
Got-held d e (had, []) h = In-left d had (e ∷ []) h
Got-held d e (had, true ∷ plan) h = In-left d had (e ∷ []) h
Got-held d e (had, false ∷ plan) h = h

bus-IsConsumer : IsConsumer bus Got
bus-IsConsumer = record { takes = Got-taken; holds = Got-held; saves = λ d c w h. h }

abbrev listing : List ArchiveObject
listing =
    record { date = 11; run_id = "old" }
    ∷ record { date = 12; run_id = "b" }
    ∷ record { date = 12; run_id = "c" }
    ∷ []

abbrev start : Cursor
start = record { active_date = some 11; processed = "old" ∷ [] }

stored :
    (poll_worker bus everything listing start fresh).stored
    ≡ record { active_date = some 12; processed = "b" ∷ [] }
unfolding poll_worker
stored = refl

marked :
    is_done
      (poll_worker bus everything listing start fresh).stored
      (record { date = 12; run_id = "b" })
    ≡ true
unfolding poll_worker
marked = refl

listing-Ordered : Ordered listing
listing-Ordered = ((omega arith, (omega arith, tt)), ((omega arith, tt), (tt, tt)))

poll_worker-Delivered_example :
    (is_done start (record { date = 12; run_id = "b" }) ≡ true)
    ⊎ Delivered bus everything Got
        (record { date = 12; run_id = "b" })
        (poll_worker bus everything listing start fresh).world
poll_worker-Delivered_example =
    Delivered.poll_worker-Delivered bus everything Got bus-IsConsumer listing start fresh
      (record { date = 12; run_id = "b" }) listing-Ordered (inr (inl refl)) marked
