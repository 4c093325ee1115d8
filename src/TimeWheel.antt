-- ===== src/TimeWheel.antt =====
-- practice/timer/timeWheelTimer.h: the timers that close idle connections. Each operation runs under
-- the wheel's lock, as one step.
pub mod Invariant
pub mod Inner
pub mod Remove
pub mod Tick
pub mod Due
pub mod Set
mod Tests
use study_record.Common.{
  ℕ, zero, suc, ◌+◌, ◌-◌, ◌/◌, ◌%◌, List, [], ◌∷◌, Option, none, some, true, false, ltb,
  if◌then◌else◌,
}
use study_record.Common.Int.{ℤ, pos, negsuc}
use study_record.Common.Run.{Run, ok, fault, out_of_fuel, ◌>>=◌}
use study_record.Common.Threads.{update}
use study_record.Common.Links.{Links, at_node, link_next, link_prev, new_node, free_node, is_ptr}

-- N, the number of slots, and SI, the seconds of a tick.
abbrev pub n_slots : ℕ
n_slots = 60

abbrev pub si : ℕ
si = 1

-- A timer is named by its address, and its fields stand in a function each. `user_data` stands for
-- the connection that `cb_func` is called with.
pub record Wheel : Type 0 where
  pub slots : ℕ → Option ℕ
  pub cur_slot : ℕ
  pub links : Links
  pub rotation : ℕ → ℕ
  pub time_slot : ℕ → ℕ
  pub user_data : ℕ → ℕ

-- The constructor.
abbrev pub empty_wheel : Wheel
empty_wheel = record {
  slots = λ s. none;
  cur_slot = 0;
  links = record { next = λ t. none; prev = λ t. none; live = λ t. false };
  rotation = λ t. 0;
  time_slot = λ t. 0;
  user_data = λ t. 0;
}

unfoldable pub ticks_of : ℕ → ℕ
ticks_of timeout = if ltb timeout si then 1 else timeout / si

-- `if(!slots[ts]){ slots[ts] = timer; }else{ … }`
unfoldable pub push_front : ℕ → ℕ → Wheel → Run Wheel
push_front ts t w = elim (w.slots ts) [
  | none ↦ ok (record w { slots = update w.slots ts (some t) })
  | some h ↦ at_node w.links t (
      at_node w.links h (
        ok (record w {
          links = link_prev h (some t) (link_next t (some h) w.links);
          slots = update w.slots ts (some t);
        })))
]

-- `t` is the address that `new` returns.
unfoldable pub add_timer : ℕ → ℤ → Wheel → Run (Option ℕ × Wheel)
add_timer t (negsuc n) w = ok (none, w)
add_timer t (pos timeout) w =
    let ticks = ticks_of timeout in
    let ts = (w.cur_slot + ticks % n_slots) % n_slots in
    push_front ts t (record w {
      links = new_node t w.links;
      rotation = update w.rotation t (ticks / n_slots);
      time_slot = update w.time_slot t ts;
    })
    >>= λ w'. ok (some t, w')

-- The timer is the first of its slot.
unfoldable pub drop_head : ℕ → Option ℕ → Wheel → Run Wheel
drop_head ts none w = ok (record w { slots = update w.slots ts none })
drop_head ts (some q) w =
    at_node w.links q
      (ok (record w { slots = update w.slots ts (some q); links = link_prev q none w.links }))

-- `if(timer->next){ timer->next->prev = timer->prev; }`
unfoldable pub link_back : ℕ → Links → Run Links
link_back t l = elim (l.next t) [
  | none ↦ ok l
  | some q ↦ at_node l q (ok (link_prev q (l.prev t) l))
]

-- The timer is behind another.
unfoldable pub drop_inner : ℕ → Links → Run Links
drop_inner t l = elim (l.prev t) [
  | none ↦ fault
  | some p ↦ at_node l p (link_back t (link_next p (l.next t) l))
]

unfoldable pub del_timer_sup : Option ℕ → Wheel → Run Wheel
del_timer_sup none w = ok w
del_timer_sup (some t) w = at_node w.links t (
    if is_ptr (w.slots (w.time_slot t)) t
    then drop_head (w.time_slot t) (w.links.next t) w
    else (drop_inner t w.links >>= λ l. ok (record w { links = l })))

-- `delete` of a null pointer does nothing.
abbrev pub delete_timer : Option ℕ → Wheel → Wheel
delete_timer none w = w
delete_timer (some t) w = record w { links = free_node t w.links }

unfoldable pub del_timer : Option ℕ → Wheel → Run Wheel
del_timer timer w = do w' ← del_timer_sup timer w; ok (delete_timer timer w')

unfoldable pub adjust_timer : ℕ → ℤ → Wheel → Run Wheel
adjust_timer t (negsuc n) w = ok w
adjust_timer t (pos timeout) w =
    let ticks = ticks_of timeout in
    at_node w.links t (do
      let ts = (w.time_slot t + ticks % n_slots) % n_slots
      w1 ← del_timer_sup (some t) w
      w2 ← push_front ts t (record w1 { links = link_next t none (link_prev t none w1.links) })
      ok (record w2 {
        rotation = update w2.rotation t (w2.rotation t + ticks / n_slots);
        time_slot = update w2.time_slot t ts;
      }))

-- The loop of tick over the timers of the slot, on fuel: the connections whose `cb_func` is called.
unfoldable pub tick_loop : ℕ → Option ℕ → Wheel → Run (List ℕ × Wheel)
tick_loop zero tmp w = out_of_fuel
tick_loop (suc k) none w = ok ([], w)
tick_loop (suc k) (some t) w = at_node w.links t (elim (ltb 0 (w.rotation t)) [
  | true ↦
      tick_loop k (w.links.next t) (record w { rotation = update w.rotation t (w.rotation t - 1) })
  | false ↦ del_timer (some t) w >>= λ w1.
      tick_loop k (w.links.next t) w1 >>= λ (fired, w2). ok (w.user_data t ∷ fired, w2)
])

unfoldable pub tick : ℕ → Wheel → Run (List ℕ × Wheel)
tick fuel w = tick_loop fuel (w.slots w.cur_slot) w >>= λ (fired, w').
    ok (fired, record w' { cur_slot = (w'.cur_slot + 1) % n_slots })
