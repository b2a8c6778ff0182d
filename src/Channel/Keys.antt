-- ===== src/Channel/Keys.antt =====
-- agent.py
-- What the key loop of the channel reads and replies.
use clonway_cockpit.Prelude.{
  ℕ, ◌+◌, ◌<◌, String, ◌≡◌, refl, sym, ap, ◌∙◌, Bool, true, false, Option, none, some, List, [],
  ◌∷◌, ◌++◌, map, arith, nat_eq, length, all,
}
use clonway_cockpit.Value.{Value}
use clonway_cockpit.Channel.{
  Sent, screen_frame, error_frame, Pump, Message, end_of_input, blank, invalid_json, not_object,
  bad_key, snapshot, quit, press, unknown, read_message, unknown_text, write, on_screen, write_last,
  marked_now, reply_to_key, handle, read_each, read_key,
}

-- the messages after which the loop reads on
abbrev pub reads_on : Message → Bool
reads_on end_of_input = false
reads_on quit = false
reads_on (press key) = false
reads_on _ = true

module _ {M : Type 0} where
  -- the draws of the cockpit between two keys
  abbrev pub draws : List M → Pump M → Pump M
  draws [] s = s
  draws (m ∷ ms) s = draws ms (on_screen m s)

  -- what the driver is due for a key: what was drawn, or the current screen
  abbrev pub due : M → List M → List M
  due current [] = current ∷ []
  due current (m ∷ ms) = m ∷ ms

  -- the answer to one message that is read over
  abbrev pub answer : Option M → Message → List (Sent M)
  answer current invalid_json = error_frame "invalid json" ∷ []
  answer current not_object = error_frame "expected a JSON object" ∷ []
  answer current bad_key = error_frame "key must be a string" ∷ []
  answer none snapshot = []
  answer (some m) snapshot = screen_frame m ∷ []
  answer current (unknown m) = error_frame (unknown_text m) ∷ []
  answer current _ = []

  append_nil : (xs : List (Sent M)) → xs ++ [] ≡ xs
  append_nil [] = refl
  append_nil (x ∷ xs) = ap (λ l. x ∷ l) (append_nil xs)

  append_assoc : (xs ys zs : List (Sent M)) → (xs ++ ys) ++ zs ≡ xs ++ (ys ++ zs)
  append_assoc [] ys zs = refl
  append_assoc (x ∷ xs) ys zs = ap (λ l. x ∷ l) (append_assoc xs ys zs)

  draws_mark : (ms : List M) (s : Pump M) → (draws ms s).key_mark ≡ s.key_mark
  unfolding on_screen write
  draws_mark [] s = refl
  draws_mark (m ∷ ms) s = draws_mark ms (on_screen m s)

  draws_count :
      (ms : List M) (s : Pump M) → (draws ms s).frames_written ≡ length ms + s.frames_written
  unfolding on_screen write
  draws_count [] s = omega arith
  draws_count (m ∷ ms) s = omega (arith, draws_count ms (on_screen m s))

  draws_sent : (ms : List M) (s : Pump M) → (draws ms s).sent ≡ s.sent ++ map screen_frame ms
  unfolding on_screen write
  draws_sent [] s = sym (append_nil s.sent)
  draws_sent (m ∷ ms) s =
      draws_sent ms (on_screen m s)
      ∙ append_assoc s.sent (screen_frame m ∷ []) (map screen_frame ms)

  reply_marked :
      (s : Pump M) (m : M)
      → s.key_mark ≡ some s.frames_written
      → s.last ≡ some m
      → (reply_to_key s).sent ≡ s.sent ++ screen_frame m ∷ []
  unfolding reply_to_key marked_now write_last write
  reply_marked s m mark current = rw (mark, current, same) refl
    where
      same : nat_eq s.frames_written s.frames_written ≡ true
      same = ground arith

  reply_drawn :
      (s : Pump M) (n : ℕ)
      → s.key_mark ≡ some n
      → n < s.frames_written
      → (reply_to_key s).sent ≡ s.sent
  unfolding reply_to_key marked_now
  reply_drawn s n mark h = rw (mark, off) refl
    where
      off : nat_eq n s.frames_written ≡ false
      off = ground (arith, h)

  -- Where a key was handed out with the mark at the frames written, and a screen stands, the
  -- driver has by the next read the screens that the key drew, or the standing screen once.
  pub reply_to_key-due :
      (s : Pump M) (ms : List M) (m : M)
      → s.key_mark ≡ some s.frames_written
      → s.last ≡ some m
      → (reply_to_key (draws ms s)).sent ≡ s.sent ++ map screen_frame (due m ms)
  reply_to_key-due s [] m mark current = reply_marked s m mark current
  reply_to_key-due s (d ∷ ds) m mark current =
      reply_drawn (draws (d ∷ ds) s) s.frames_written (draws_mark (d ∷ ds) s ∙ mark)
        (omega (arith, draws_count (d ∷ ds) s))
      ∙ draws_sent (d ∷ ds) s

  write_last_at :
      (o : Option M) (s : Pump M)
      → write_last (record s { last = o })
        ≡ record s { last = o; sent = s.sent ++ answer o snapshot }
  unfolding write_last write
  write_last_at none s = ap (λ l. record s { last = none; sent = l }) (sym (append_nil s.sent))
  write_last_at (some m) s = refl

  module _ (loads : String → Option Value) where
    abbrev pub answers : Option M → List String → List (Sent M)
    answers current [] = []
    answers current (raw ∷ raws) = answer current (read_message loads raw) ++ answers current raws

    read_stops :
        (raw key : String) (rest : List String) (s t : Pump M)
        → handle (read_message loads raw) (record s { incoming = rest }) ≡ (some key, t)
        → read_each loads (raw ∷ rest) s ≡ (key, t)
    unfolding read_each
    read_stops raw key rest s t h = rw (read_each, h) (ap (λ r. (key, r.1)) h)

    read_goes_on :
        (raw : String) (rest : List String) (s t : Pump M)
        → handle (read_message loads raw) (record s { incoming = rest }) ≡ (none, t)
        → read_each loads (raw ∷ rest) s ≡ read_each loads rest t
    unfolding read_each
    read_goes_on raw rest s t h = rw (read_each, h) (ap (λ r. read_each loads rest r.1) h)

    handle_on :
        (msg : Message) (s : Pump M)
        → reads_on msg ≡ true
        → handle msg s ≡ (none, record s { sent = s.sent ++ answer s.last msg })
    unfolding handle write_last write
    handle_on end_of_input s h = absurd (ground (arith, h))
    handle_on quit s h = absurd (ground (arith, h))
    handle_on (press key) s h = absurd (ground (arith, h))
    handle_on blank s h = ap (λ l. (none, record s { sent = l })) (sym (append_nil s.sent))
    handle_on invalid_json s h = refl
    handle_on not_object s h = refl
    handle_on bad_key s h = refl
    handle_on snapshot s h = ap (λ u. (none, u)) (write_last_at s.last s)
    handle_on (unknown m) s h = refl

    pub read_each-skips :
        (raws rest : List String) (raw key : String) (s : Pump M)
        → all (λ r. reads_on (read_message loads r)) raws ≡ true
        → read_message loads raw ≡ press key
        → read_each loads (raws ++ raw ∷ rest) s ≡ (
          key,
          record s {
            incoming = rest;
            key_mark = some s.frames_written;
            sent = s.sent ++ answers s.last raws;
          },
        )
    unfolding handle
    read_each-skips [] rest raw key s on at = read_stops raw key rest s _ (rw (at, append_nil) refl)
    read_each-skips (r ∷ raws) rest raw key s on at =
        let t = record s {
          incoming = raws ++ raw ∷ rest;
          sent = s.sent ++ answer s.last (read_message loads r);
        } in
        read_goes_on r (raws ++ raw ∷ rest) s t
          (handle_on (read_message loads r) _ (ground (arith, on)))
        ∙ read_each-skips raws rest raw key t (ground (arith, on)) at
        ∙ ap (λ l. (key, record s { incoming = rest; key_mark = some s.frames_written; sent = l }))
            (append_assoc s.sent (answer s.last (read_message loads r)) (answers s.last raws))

    reply_incoming : (s : Pump M) → (reply_to_key s).incoming ≡ s.incoming
    unfolding reply_to_key write_last write
    reply_incoming s = ground arith

    reply_last : (s : Pump M) → (reply_to_key s).last ≡ s.last
    unfolding reply_to_key write_last write
    reply_last s = ground arith

    -- Where stdin holds reads that are no key, no quit and no end, and then a key message,
    -- read_key returns that key, leaves what follows it unread, and has answered each read before
    -- it, in order: an error for a malformed or unknown message, the screen for a snapshot.
    pub read_key-next :
        (raws rest : List String) (raw key : String) (s : Pump M)
        → s.incoming ≡ raws ++ raw ∷ rest
        → all (λ r. reads_on (read_message loads r)) raws ≡ true
        → read_message loads raw ≡ press key
        → let t = reply_to_key s in
          read_key loads s ≡ (
            key,
            record t {
              incoming = rest;
              key_mark = some t.frames_written;
              sent = t.sent ++ answers t.last raws;
            },
          )
    unfolding read_key
    read_key-next raws rest raw key s e on at =
        ap (λ l. read_each loads l (reply_to_key s)) e
        ∙ read_each-skips raws rest raw key (reply_to_key s) on at

    -- Where stdin holds a key message, after reads that are no key, no quit and no end, and a screen
    -- stands, then whatever the cockpit draws for the key, the driver has by the next read the
    -- screens drawn, or, where none was drawn, the standing screen exactly once.
    pub read_key-due :
        (raws rest : List String) (raw key : String) (s : Pump M) (ms : List M) (m : M)
        → s.incoming ≡ raws ++ raw ∷ rest
        → all (λ r. reads_on (read_message loads r)) raws ≡ true
        → read_message loads raw ≡ press key
        → s.last ≡ some m
        → let t = (read_key loads s).1 in
          (reply_to_key (draws ms t)).sent ≡ t.sent ++ map screen_frame (due m ms)
    read_key-due raws rest raw key s ms m e on at current =
        rw (read_key-next raws rest raw key s e on at) (
          reply_to_key-due
            (record (reply_to_key s) {
              incoming = rest;
              key_mark = some (reply_to_key s).frames_written;
              sent = (reply_to_key s).sent ++ answers (reply_to_key s).last raws;
            })
            ms m refl (reply_last s ∙ current))
