-- ===== src/Web/EventQueue/Order.antt =====
-- The batches of webapp/core/event_queue.py against one insert per event.
use mathlib.Core.List.{append_assoc, append-nil}
use vakant.Prelude.{
  ℕ, ◌+◌, ◌≡◌, refl, true, false, none, some, List, [], ◌∷◌, ◌++◌, arith, leb, length, All,
  Bool-cases, inl, inr, ◌∙◌, sym, ap,
}
use vakant.Web.EventQueue.{
  EventRow, Api, new_api, is_empty, append_row, with_queue, arrive, Insert, inserted, failed,
  cut_off, settle_rows, taken, flush, Round, clear_wakeup, run_round, run_rounds, set_wakeup, stop,
  Event, emits, flushes, starts, stops, happen, history, rows_of, rows_of_all, emitted, all_emitted,
  Whole, AllWhole, WholeEvent,
}

-- The rows of the table, then those of the buffer.
abbrev pub seen : Api → List EventRow
seen a = a.table ++ a.queue.buffer

-- If nothing is dropped until then, these rows have come behind the others.
abbrev Grows : List EventRow → Api → Api → Type 0
Grows xs a b = b.queue.dropped ≡ 0 → (a.queue.dropped ≡ 0) × (seen b ≡ seen a ++ xs)

Grows-then :
    (xs ys : List EventRow) (a b c : Api) → Grows xs a b → Grows ys b c → Grows (xs ++ ys) a c
Grows-then xs ys a b c first second none_dropped =
    let (d, later) = second none_dropped in
    let (d0, sooner) = first d in
    (d0, later ∙ ap (λ zs. zs ++ ys) sooner ∙ append_assoc (seen a) xs ys)

arrive_kept :
    (rs : List EventRow) (a : Api)
    → (arrive rs a).queue.dropped ≡ 0
    → (a.queue.dropped ≡ 0)
      × ((arrive rs a).table ≡ a.table)
      × ((arrive rs a).queue.buffer ≡ a.queue.buffer ++ rs)
unfolding arrive
arrive_kept [] a h = (h, refl, sym (append-nil a.queue.buffer))
arrive_kept (r ∷ rs) a h = elim (Bool-cases (leb a.queue.max_size (length a.queue.buffer))) [
  | inl full ↦
      let (d, _, _) =
        arrive_kept rs (with_queue (λ q. record q { dropped = q.dropped + 1 }) a)
          (rw (full, arrive) at h) in
      absurd (suc_dropped a.queue.dropped d)
  | inr room ↦
      let (d, t, later) = arrive_kept rs (with_queue (append_row r) a) (rw (room, arrive) at h) in
      (d, rw (room, arrive) t, rw (room, arrive) (later ∙ append_assoc a.queue.buffer (r ∷ []) rs))
]
  where
    suc_dropped : (n : ℕ) → n + 1 ≡ 0 → ⊥
    suc_dropped n e = omega (arith, e)

arrive-Grows : (rs : List EventRow) (a : Api) → Grows rs a (arrive rs a)
arrive-Grows rs a h =
    let (d, t, later) = arrive_kept rs a h in
    (
      d,
      ap (λ xs. xs ++ (arrive rs a).queue.buffer) t
          ∙ ap (λ xs. a.table ++ xs) later
          ∙ sym (append_assoc a.table a.queue.buffer rs),
    )

flush-Grows :
    (ins : Insert) (meanwhile : List EventRow) (a : Api)
    → Whole ins
    → Grows meanwhile a (flush ins meanwhile a)
flush-Grows ins meanwhile a w h = elim (Bool-cases (is_empty a.queue.buffer)) [
  | inl empty ↦ rw (empty, flush) (arrive-Grows meanwhile a (rw (empty, flush) at h))
  | inr rows ↦ rw (rows, flush) (by_write ins w rows (rw (rows, flush) at h))
]
  where
    some_rows : (xs : List EventRow) (n : ℕ) → is_empty xs ≡ false → n + length xs ≡ 0 → ⊥
    some_rows [] n e p = cc
    some_rows (x ∷ xs) n e p = omega (arith, p)

    by_write :
        (ins : Insert)
        → Whole ins
        → is_empty a.queue.buffer ≡ false
        → (settle_rows ins a.queue.buffer (arrive meanwhile (taken a))).queue.dropped ≡ 0
        → (a.queue.dropped ≡ 0)
          × (seen (settle_rows ins a.queue.buffer (arrive meanwhile (taken a)))
              ≡ seen a ++ meanwhile)
    by_write inserted w rows p =
        let (d, t, later) = arrive_kept meanwhile (taken a) p in
        (
          d,
          ap (λ xs. (xs ++ a.queue.buffer) ++ (arrive meanwhile (taken a)).queue.buffer) t
              ∙ ap (λ xs. (a.table ++ a.queue.buffer) ++ xs) later,
        )
    by_write failed w rows p =
        absurd (some_rows a.queue.buffer (arrive meanwhile (taken a)).queue.dropped rows p)
    by_write (cut_off c) w rows p = absurd w

run_round-Grows : (r : Round) (a : Api) → Whole r.write → Grows (rows_of r) a (run_round r a)
run_round-Grows r a w =
    let woken = with_queue clear_wakeup (arrive r.arrived a) in
    Grows-then r.arrived r.meanwhile a woken (run_round r a) (arrive-Grows r.arrived a)
      (elim (Bool-cases r.opened) [
        | inl opened ↦ rw opened (flush-Grows r.write r.meanwhile woken w)
        | inr closed ↦ rw closed (arrive-Grows r.meanwhile woken)
      ])

Grows-none : (a b : Api) → (b.queue.dropped ≡ a.queue.dropped) → seen b ≡ seen a → Grows [] a b
Grows-none a b d e h = (sym d ∙ h, e ∙ sym (append-nil (seen a)))

run_rounds-Grows :
    (rs : List Round) (a : Api) → AllWhole rs → Grows (rows_of_all rs) a (run_rounds rs a)
unfolding run_rounds rows_of_all AllWhole
run_rounds-Grows [] a w = Grows-none a a refl refl
run_rounds-Grows (r ∷ rs) a (w, ws) =
    Grows-then (rows_of r) (rows_of_all rs) a (run_round r a) (run_rounds rs (run_round r a))
      (run_round-Grows r a w) (run_rounds-Grows rs (run_round r a) ws)

stop-Grows :
    (rounds : List Round) (r : Round) (a : Api)
    → AllWhole rounds
    → Whole r.write
    → r.opened ≡ true
    → Grows (rows_of_all rounds ++ rows_of r) a (stop rounds r a)
stop-Grows rounds r a ws w opened =
    let asked = with_queue (λ q. record q { stopping = true; wakeup = set_wakeup q.wakeup }) a in
    let drained =
      with_queue (λ q. record q { running = false; wakeup = none }) (run_rounds rounds asked) in
    Grows-then (rows_of_all rounds) (rows_of r) a drained (stop rounds r a)
      (run_rounds-Grows rounds asked ws)
      (Grows-then r.arrived r.meanwhile drained (arrive r.arrived drained) (stop rounds r a)
        (arrive-Grows r.arrived drained)
        (rw opened (flush-Grows r.write r.meanwhile (arrive r.arrived drained) w)))

happen-Grows : (e : Event) (a : Api) → WholeEvent e → Grows (emitted e) a (happen e a)
unfolding arrive
happen-Grows (emits r) a w = arrive-Grows (r ∷ []) a
happen-Grows (flushes r) a w = run_round-Grows r a w
happen-Grows starts a w = elim (Bool-cases a.queue.running) [
  | inl running ↦ rw running (Grows-none a a refl refl)
  | inr idle ↦ rw idle (
      Grows-none a
        (with_queue (λ q. record q { running = true; stopping = false; wakeup = some false }) a)
        refl refl)
]
happen-Grows (stops rounds r) a (ws, w, opened) = stop-Grows rounds r a ws w opened

history-Grows :
    (events : List Event) (a : Api)
    → All WholeEvent events
    → Grows (all_emitted events) a (history events a)
unfolding history all_emitted
history-Grows [] a w = Grows-none a a refl refl
history-Grows (e ∷ es) a (w, ws) =
    Grows-then (emitted e) (all_emitted es) a (happen e a) (history es (happen e a))
      (happen-Grows e a w) (history-Grows es (happen e a) ws)

-- As long as nothing is dropped, no write is cut off and the last connection of each stop opens, the
-- table with the buffer behind it is what one insert per event would have written: every row that
-- was taken in, once and in the order of arrival.
pub history-seen :
    (max_size batch_size : ℕ) (events : List Event)
    → All WholeEvent events
    → (history events (new_api max_size batch_size)).queue.dropped ≡ 0
    → seen (history events (new_api max_size batch_size)) ≡ all_emitted events
history-seen max_size batch_size events whole none_dropped =
    (history-Grows events (new_api max_size batch_size) whole none_dropped).1
