-- ===== src/TimerList.antt =====
-- practice/timer/ascendSortedTimerList.h: timers in the order of their times, doubly linked.
pub mod Invariant
pub mod Place
pub mod Add
pub mod Remove
pub mod Set
pub mod Tick
mod Tests
use study_record.Common.{
  ℕ, zero, suc, List, [], ◌∷◌, Option, none, some, Bool, true, false, ltb, leb, if◌then◌else◌,
}
use study_record.Common.Run.{Run, ok, fault, out_of_fuel, ◌>>=◌, deref}
use study_record.Common.Links.{Links, at_node, link_next, link_prev, free_node, is_ptr}

-- A timer is named by its address. `user_data` stands for what `cb_func` is called with.
pub record TimerList : Type 0 where
  pub head : Option ℕ
  pub tail : Option ℕ
  pub links : Links
  pub absolute_expire : ℕ → ℕ
  pub user_data : ℕ → ℕ

-- Equality of two pointers.
abbrev pub same_ptr : Option ℕ → Option ℕ → Bool
same_ptr p none = elim p [ none ↦ true | some a ↦ false ]
same_ptr p (some b) = is_ptr p b

-- The timer before the head `h`.
unfoldable pub add_front : ℕ → ℕ → TimerList → Run TimerList
add_front t h l = at_node l.links h (
    ok (record l {
      links = link_prev t none (link_next t (some h) (link_prev h (some t) l.links));
      head = some t;
    }))

-- `while(first_above && first_above->absolute_expire < timer->absolute_expire)`, on fuel.
unfoldable pub find_above : ℕ → ℕ → Option ℕ → TimerList → Run (Option ℕ)
find_above zero t p l = out_of_fuel
find_above (suc k) t none l = ok none
find_above (suc k) t (some a) l =
    at_node l.links a (elim (ltb (l.absolute_expire a) (l.absolute_expire t)) [
      | true ↦ find_above k t (l.links.next a) l
      | false ↦ ok (some a)
    ])

-- The timer between the one before `a` and `a`.
unfoldable pub add_before : ℕ → ℕ → TimerList → Run TimerList
add_before t a l = do
  pre ← deref (l.links.prev a)
  at_node l.links pre (
      ok (record l {
        links =
            link_prev t (some pre)
              (link_prev a (some t) (link_next t (some a) (link_next pre (some t) l.links)));
      }))

-- The timer behind the tail.
unfoldable pub add_back : ℕ → TimerList → Run TimerList
add_back t l = do
  last ← deref l.tail
  at_node l.links last (
      ok (record l {
        links = link_next t none (link_prev t (some last) (link_next last (some t) l.links));
        tail = some t;
      }))

unfoldable pub add_behind : ℕ → Option ℕ → TimerList → Run TimerList
add_behind t none l = add_back t l
add_behind t (some a) l = add_before t a l

-- By the value of `head`.
unfoldable pub add_at : ℕ → ℕ → Option ℕ → TimerList → Run TimerList
add_at fuel t none l = ok (record l { head = some t; tail = some t })
add_at fuel t (some h) l = at_node l.links h (
    at_node l.links t (elim (leb (l.absolute_expire t) (l.absolute_expire h)) [
      | true ↦ add_front t h l
      | false ↦ find_above fuel t (some h) l >>= λ above. add_behind t above l
    ]))

unfoldable pub add_timer : ℕ → Option ℕ → TimerList → Run TimerList
add_timer fuel none l = ok l
add_timer fuel (some t) l = add_at fuel t l.head l

-- `head = head->next; head->prev = nullptr;`
unfoldable pub drop_head : ℕ → TimerList → Run TimerList
drop_head h l = do
  q ← deref (l.links.next h)
  at_node l.links q (ok (record l { head = some q; links = link_prev q none l.links }))

-- `tail = tail->prev; tail->next = nullptr;`
unfoldable pub drop_tail : ℕ → TimerList → Run TimerList
drop_tail t l = do
  p ← deref (l.links.prev t)
  at_node l.links p (ok (record l { tail = some p; links = link_next p none l.links }))

-- `pre->next = nex; nex->prev = pre;`
unfoldable pub drop_middle : ℕ → TimerList → Run TimerList
drop_middle t l = do
  pre ← deref (l.links.prev t)
  at_node l.links pre (do
    nex ← deref (l.links.next t)
    at_node l.links nex
        (ok (record l { links = link_prev nex (some pre) (link_next pre (some nex) l.links) })))

unfoldable pub del_timer_sup : Option ℕ → TimerList → Run TimerList
del_timer_sup none l = ok l
del_timer_sup (some t) l =
    if is_ptr l.head t
    then (if same_ptr l.head l.tail
        then ok (record l { head = none; tail = none })
        else at_node l.links t (drop_head t l))
    else if is_ptr l.tail t
    then at_node l.links t (drop_tail t l)
    else at_node l.links t (drop_middle t l)

-- free_timer: `delete` of a null pointer does nothing.
abbrev pub free_timer : Option ℕ → TimerList → TimerList
free_timer none l = l
free_timer (some t) l = record l { links = free_node t l.links }

unfoldable pub del_timer : Option ℕ → TimerList → Run TimerList
del_timer timer l = do l' ← del_timer_sup timer l; ok (free_timer timer l')

unfoldable pub adjust_timer : ℕ → Option ℕ → TimerList → Run TimerList
adjust_timer fuel timer l = do l' ← del_timer_sup timer l; add_timer fuel timer l'

-- The loop of tick at the time `cur`, on fuel, by the value of `head`: what `cb_func` is called
-- with, in order.
unfoldable pub tick_loop : ℕ → ℕ → Option ℕ → TimerList → Run (List ℕ × TimerList)
tick_loop zero cur head l = out_of_fuel
tick_loop (suc k) cur none l = ok ([], l)
tick_loop (suc k) cur (some h) l = at_node l.links h (elim (ltb cur (l.absolute_expire h)) [
  | true ↦ ok ([], l)
  | false ↦ del_timer (some h) l >>= λ l1.
      tick_loop k cur l1.head l1 >>= λ (fired, l2). ok (l.user_data h ∷ fired, l2)
])

abbrev pub tick : ℕ → ℕ → TimerList → Run (List ℕ × TimerList)
tick fuel cur l = tick_loop fuel cur l.head l
