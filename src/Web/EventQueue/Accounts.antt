-- ===== src/Web/EventQueue/Accounts.antt =====
-- What becomes of the rows that webapp/core/event_queue.py takes in.
use vakant.Prelude.{
  ℕ, ◌+◌, ◌≡◌, ◌≤◌, refl, true, List, [], ◌∷◌, arith, leb, length, length-append, All, Bool-cases,
  inl, inr, ◌∙◌,
}
use vakant.Web.EventQueue.{
  EventRow, Api, new_api, is_empty, enqueue, with_queue, arrive, Insert, inserted, failed, cut_off,
  settle_rows, taken, flush, Round, clear_wakeup, run_round, run_rounds, start, set_wakeup, stop,
  Event, emits, flushes, starts, stops, happen, history, rows_of, rows_of_all, emitted, all_emitted,
  Whole, AllWhole, WholeEvent,
}

-- Of n rows taken in, each was written, dropped or is still in the buffer, which keeps its bound;
-- the table holds those that were written.
abbrev pub Accounted : ℕ → Api → Type 0
Accounted n a =
    (length a.queue.buffer ≤ a.queue.max_size)
    × (a.queue.written + a.queue.dropped + length a.queue.buffer ≡ n)
    × (length a.table ≡ a.queue.written)

Accounted-same : (m n : ℕ) (a : Api) → m ≡ n → Accounted m a → Accounted n a
Accounted-same m n a e (bound, sum, stored) = (bound, sum ∙ e, stored)

enqueue-Accounted :
    (n : ℕ) (r : EventRow) (a : Api)
    → Accounted n a
    → Accounted (n + 1) (with_queue (λ q. (enqueue r q).1) a)
enqueue-Accounted n r a (bound, sum, rows) =
    elim (Bool-cases (leb a.queue.max_size (length a.queue.buffer))) [
      | inl full ↦ rw full (bound, omega (arith, sum), rows)
      | inr room ↦
          let longer = length-append a.queue.buffer (r ∷ []) in
          rw room (ground (arith, room, longer), omega (arith, sum, longer), rows)
    ]

arrive-Accounted :
    (rs : List EventRow) (n : ℕ) (a : Api) → Accounted n a → Accounted (n + length rs) (arrive rs a)
unfolding arrive
arrive-Accounted [] n a p = Accounted-same n _ a (omega arith) p
arrive-Accounted (r ∷ rs) n a p =
    Accounted-same (n + 1 + length rs) _ (arrive (r ∷ rs) a) (omega arith)
      (arrive-Accounted rs (n + 1) _ (enqueue-Accounted n r a p))

settle_rows-Accounted :
    (n : ℕ) (ins : Insert) (rows : List EventRow) (a : Api)
    → Whole ins
    → Accounted n a
    → Accounted (n + length rows) (settle_rows ins rows a)
settle_rows-Accounted n inserted rows a w (bound, sum, stored) =
    (bound, omega (arith, sum), omega (arith, stored, length-append a.table rows))
settle_rows-Accounted n failed rows a w (bound, sum, stored) = (bound, omega (arith, sum), stored)
settle_rows-Accounted n (cut_off c) rows a w p = absurd w

flush-Accounted :
    (n : ℕ) (ins : Insert) (meanwhile : List EventRow) (a : Api)
    → Whole ins
    → Accounted n a
    → Accounted (n + length meanwhile) (flush ins meanwhile a)
flush-Accounted n ins meanwhile a w (bound, sum, stored) =
    elim (Bool-cases (is_empty a.queue.buffer)) [
      | inl empty ↦ rw empty (arrive-Accounted meanwhile n a (bound, sum, stored))
      | inr rows ↦
          let k = a.queue.written + a.queue.dropped in
          let emptied : Accounted k (taken a) = (omega arith, omega arith, stored) in
          rw rows (
            Accounted-same (k + length meanwhile + length a.queue.buffer) _
              (settle_rows ins a.queue.buffer (arrive meanwhile (taken a))) (omega (arith, sum))
              (settle_rows-Accounted (k + length meanwhile) ins a.queue.buffer _ w
                (arrive-Accounted meanwhile k (taken a) emptied)))
    ]

run_round-Accounted :
    (n : ℕ) (r : Round) (a : Api)
    → Whole r.write
    → Accounted n a
    → Accounted (n + length (rows_of r)) (run_round r a)
run_round-Accounted n r a w p =
    let arrived = arrive-Accounted r.arrived n a p in
    let m = n + length r.arrived in
    let woken : Accounted m (with_queue clear_wakeup (arrive r.arrived a)) = arrived in
    Accounted-same (m + length r.meanwhile) _ (run_round r a)
      (omega (arith, length-append r.arrived r.meanwhile))
      (elim (Bool-cases r.opened) [
        | inl opened ↦ rw opened (flush-Accounted m r.write r.meanwhile _ w woken)
        | inr closed ↦ rw closed (arrive-Accounted r.meanwhile m _ woken)
      ])

run_rounds-Accounted :
    (rs : List Round) (n : ℕ) (a : Api)
    → AllWhole rs
    → Accounted n a
    → Accounted (n + length (rows_of_all rs)) (run_rounds rs a)
unfolding run_rounds rows_of_all AllWhole
run_rounds-Accounted [] n a w p = Accounted-same n _ a (omega arith) p
run_rounds-Accounted (r ∷ rs) n a (w, ws) p =
    Accounted-same (n + length (rows_of r) + length (rows_of_all rs)) _ (run_rounds (r ∷ rs) a)
      (omega (arith, length-append (rows_of r) (rows_of_all rs)))
      (run_rounds-Accounted rs (n + length (rows_of r)) _ ws (run_round-Accounted n r a w p))

happen-Accounted :
    (n : ℕ) (e : Event) (a : Api)
    → WholeEvent e
    → Accounted n a
    → Accounted (n + length (emitted e)) (happen e a)
happen-Accounted n (emits r) a w p = enqueue-Accounted n r a p
happen-Accounted n (flushes r) a w p = run_round-Accounted n r a w p
happen-Accounted n starts a w p =
    Accounted-same n _ (start a) (omega arith)
      (elim (Bool-cases a.queue.running) [ inl running ↦ rw running p | inr idle ↦ rw idle p ])
happen-Accounted n (stops rounds r) a (ws, w, opened) p =
    let asked : Accounted n
        (with_queue (λ q. record q { stopping = true; wakeup = set_wakeup q.wakeup }) a) =
      p in
    let drained = run_rounds-Accounted rounds n _ ws asked in
    let arrived = arrive-Accounted r.arrived (n + length (rows_of_all rounds)) _ drained in
    Accounted-same (n + length (rows_of_all rounds) + length r.arrived + length r.meanwhile) _
      (stop rounds r a)
      (omega (
        arith,
        length-append (rows_of_all rounds) (rows_of r),
        length-append r.arrived r.meanwhile,
      ))
      (rw opened (
        flush-Accounted (n + length (rows_of_all rounds) + length r.arrived) r.write r.meanwhile _ w
          arrived))

history-Accounted' :
    (events : List Event) (n : ℕ) (a : Api)
    → All WholeEvent events
    → Accounted n a
    → Accounted (n + length (all_emitted events)) (history events a)
unfolding history all_emitted
history-Accounted' [] n a w p = Accounted-same n _ a (omega arith) p
history-Accounted' (e ∷ es) n a (w, ws) p =
    Accounted-same (n + length (emitted e) + length (all_emitted es)) _ (history (e ∷ es) a)
      (omega (arith, length-append (emitted e) (all_emitted es)))
      (history-Accounted' es (n + length (emitted e)) _ ws (happen-Accounted n e a w p))

-- From a new queue, whatever arrives and whichever writes fail, as long as no write is cut off and the
-- last connection of each stop opens: the buffer keeps its bound, each row that was taken in is
-- written, dropped or still in the buffer, and the table has the rows that were written.
pub history-Accounted :
    (max_size batch_size : ℕ) (events : List Event)
    → All WholeEvent events
    → Accounted (length (all_emitted events)) (history events (new_api max_size batch_size))
history-Accounted max_size batch_size events whole =
    Accounted-same (0 + length (all_emitted events)) _
      (history events (new_api max_size batch_size)) (omega arith)
      (history-Accounted' events 0 (new_api max_size batch_size) whole (omega arith, refl, refl))
