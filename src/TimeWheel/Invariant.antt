-- ===== src/TimeWheel/Invariant.antt =====
-- The slots of practice/timer/timeWheelTimer.h as lists of timers.
use study_record.Common.{
  ℕ, ◌<◌, ◌≡◌, ◌∙◌, refl, sym, ap, subst, List, [], ◌∷◌, Option, none, some, true, false, ◌==◌, inl,
  inr, Bool-cases, arith,
}
use study_record.Common.Run.{ok}
use study_record.Common.Threads.{update, update-all}
use study_record.Common.Links.{
  Links, link_next, link_prev, new_node, free_node, has, is_distinct, first, without, Seg,
}
use study_record.Common.Links.Laws.{
  Seg-link_next, Seg-link_prev, Seg-free_node, Seg-new_node, without-gone, not_live-has,
}
use study_record.TimeWheel.{Wheel, n_slots, push_front}

-- The slot `s` holds the timers `ts s`, doubly linked in this order.
pub record IsWheel (w : Wheel) (ts : ℕ → List ℕ) : Type 0 where
  pub heads : (s : ℕ) → w.slots s ≡ first (ts s) none
  pub linked : (s : ℕ) → Seg w.links none (ts s) none
  pub distinct : (s : ℕ) → is_distinct (ts s) ≡ true
  pub places : (s t : ℕ) → has t (ts s) ≡ true → w.time_slot t ≡ s
  pub range : (s t : ℕ) → has t (ts s) ≡ true → s < n_slots
  pub cursor : w.cur_slot < n_slots

-- No slot holds the timer.
abbrev pub IsFree : (ℕ → List ℕ) → ℕ → Type 0
IsFree ts t = (s : ℕ) → has t (ts s) ≡ false

module _ {w : Wheel} {ts : ℕ → List ℕ} (v : IsWheel w ts) where
  pub elsewhere : (s s' t : ℕ) → has t (ts s) ≡ true → (s == s') ≡ false → has t (ts s') ≡ false
  elsewhere s s' t h d = elim (Bool-cases (has t (ts s'))) [
    | inl e ↦ absurd (ground (arith, v.places s t h, v.places s' t e))
    | inr e ↦ e
  ]

-- The timer, set aside with no neighbours, is put first in the slot that it names.
module _ (w : Wheel) (ts : ℕ → List ℕ) (v : IsWheel w ts) (s t : ℕ) (lt : s < n_slots)
    (free : IsFree ts t) (live : w.links.live t ≡ true) (next : w.links.next t ≡ none)
    (prev : w.links.prev t ≡ none) (slot_of : ℕ → ℕ) (here : slot_of t ≡ s)
    (others : (u : ℕ) → (u == t) ≡ false → slot_of u ≡ w.time_slot u) where
  kept_slot : (s' u : ℕ) → has u (ts s') ≡ true → slot_of u ≡ s'
  kept_slot s' u h = ground (arith, free s', others u, v.places s' u)

  -- The lists with the timer, given its links.
  assemble :
      (links' : Links)
      → Seg links' none (t ∷ ts s) none
      → ((s' : ℕ) → (s == s') ≡ false → Seg links' none (ts s') none)
      → (r : ℕ → ℕ)
      → IsWheel
          (record w {
            slots = update w.slots s (some t);
            links = links';
            rotation = r;
            time_slot = slot_of;
          })
          (update ts s (t ∷ ts s))
  assemble links' front rest r = record {
    heads =
        update-all (λ s' xs. update w.slots s (some t) s' ≡ first xs none) ts s (t ∷ ts s)
          (ground arith) (λ s' d. ground (arith, v.heads s'));
    linked = update-all (λ s' xs. Seg links' none xs none) ts s (t ∷ ts s) front rest;
    distinct =
        update-all (λ s' xs. is_distinct xs ≡ true) ts s (t ∷ ts s)
          (ground (arith, free s, v.distinct s)) (λ s' d. v.distinct s');
    places =
        update-all (λ s' xs. (u : ℕ) → has u xs ≡ true → slot_of u ≡ s') ts s (t ∷ ts s)
          (λ u h. ground (arith, kept_slot s u)) (λ s' d u h. kept_slot s' u h);
    range =
        update-all (λ s' xs. (u : ℕ) → has u xs ≡ true → s' < n_slots) ts s (t ∷ ts s) (λ u h. lt)
          (λ s' d u h. v.range s' u h);
    cursor = v.cursor;
  }

  -- However the turns and places are written down, before the timer is put in its slot or after.
  abbrev pub Pushed : Type 0
  Pushed =
      (slots' : ℕ → Option ℕ) × (links' : Links) × ((r p : ℕ → ℕ)
        → push_front s t (record w { rotation = r; time_slot = p })
          ≡ ok (record w { slots = slots'; links = links'; rotation = r; time_slot = p }))
      × ((r : ℕ → ℕ)
          → IsWheel (record w { slots = slots'; links = links'; rotation = r; time_slot = slot_of })
              (update ts s (t ∷ ts s)))
      × ((u : ℕ) → links'.live u ≡ w.links.live u)

  push_on : (xs : List ℕ) → ts s ≡ xs → Pushed
  unfolding push_front
  push_on [] e =
      let empty : w.slots s ≡ none = v.heads s ∙ ap (λ xs. first xs none) e in
      (
        update w.slots s (some t),
        w.links,
        λ r p. rw (empty, push_front) refl,
        assemble w.links (rw e (live, prev, next, tt)) (λ s' d. v.linked s'),
        λ u. refl,
      )
  push_on (h ∷ hs) e =
      let l = link_next t (some h) w.links in
      let filled : w.slots s ≡ some h = v.heads s ∙ ap (λ xs. first xs none) e in
      let chain : Seg w.links none (h ∷ hs) none =
        subst (λ xs. Seg w.links none xs none) e (v.linked s) in
      let mine : has h (ts s) ≡ true = ap (has h) e ∙ ground arith in
      let apart : (h == t) ≡ false = ground (arith, free s) in
      let apart' : (t == h) ≡ false = ground arith in
      let out : has h hs ≡ false = ground (arith, sym (ap is_distinct e) ∙ v.distinct s) in
      let out' : has t hs ≡ false = ground (arith, sym (ap (has t) e) ∙ free s) in
      let tail : Seg (link_prev h (some t) l) (some h) hs none =
        Seg-link_prev l (some h) hs none h (some t) out
          (Seg-link_next w.links (some h) hs none t (some h) out' chain.3) in
      (
        update w.slots s (some t),
        link_prev h (some t) l,
        λ r p. rw (filled, push_front, live, chain.0) refl,
        assemble (link_prev h (some t) l)
            (rw e (
              live,
              ground arith,
              ground arith,
              (chain.0, ground arith, ground (arith, chain.2), tail),
            ))
            (λ s' d.
              Seg-link_prev l none (ts s') none h (some t) (elsewhere v s s' h mine d)
                (Seg-link_next w.links none (ts s') none t (some h) (free s') (v.linked s'))),
        λ u. refl,
      )

  pub push_front-IsWheel : Pushed
  push_front-IsWheel = push_on (ts s) refl

-- What the slots hold does not depend on the turns.
pub IsWheel-rotation :
    {w : Wheel} {ts : ℕ → List ℕ} (r : ℕ → ℕ)
    → IsWheel w ts
    → IsWheel (record w { rotation = r }) ts
IsWheel-rotation r v = record {
  heads = v.heads;
  linked = v.linked;
  distinct = v.distinct;
  places = v.places;
  range = v.range;
  cursor = v.cursor;
}

pub IsWheel-free_node :
    (w : Wheel) (ts : ℕ → List ℕ) (t : ℕ)
    → IsWheel w ts
    → IsFree ts t
    → IsWheel (record w { links = free_node t w.links }) ts
IsWheel-free_node w ts t v free = record {
  heads = v.heads;
  linked = λ s. Seg-free_node w.links none (ts s) none t (free s) (v.linked s);
  distinct = v.distinct;
  places = v.places;
  range = v.range;
  cursor = v.cursor;
}

pub IsWheel-new_node :
    (w : Wheel) (ts : ℕ → List ℕ) (t : ℕ)
    → IsWheel w ts
    → IsFree ts t
    → IsWheel (record w { links = new_node t w.links }) ts
IsWheel-new_node w ts t v free = record {
  heads = v.heads;
  linked = λ s. Seg-new_node w.links none (ts s) none t (free s) (v.linked s);
  distinct = v.distinct;
  places = v.places;
  range = v.range;
  cursor = v.cursor;
}

-- A timer set aside may lose its neighbours.
pub IsWheel-alone :
    (w : Wheel) (ts : ℕ → List ℕ) (t : ℕ)
    → IsWheel w ts
    → IsFree ts t
    → IsWheel (record w { links = link_next t none (link_prev t none w.links) }) ts
IsWheel-alone w ts t v free = record {
  heads = v.heads;
  linked = λ s.
      Seg-link_next (link_prev t none w.links) none (ts s) none t none (free s)
        (Seg-link_prev w.links none (ts s) none t none (free s) (v.linked s));
  distinct = v.distinct;
  places = v.places;
  range = v.range;
  cursor = v.cursor;
}

-- A timer taken out of its slot is in none.
pub without-IsFree :
    {w : Wheel} {ts : ℕ → List ℕ} (v : IsWheel w ts) (s t : ℕ)
    → has t (ts s) ≡ true
    → IsFree (update ts s (without t (ts s))) t
without-IsFree {w} {ts} v s t mine =
    update-all (λ s' xs. has t xs ≡ false) ts s (without t (ts s))
      (without-gone t (ts s) (v.distinct s)) (λ s' d. elsewhere v s s' t mine d)

pub not_live-IsFree :
    {w : Wheel} {ts : ℕ → List ℕ} (v : IsWheel w ts) (t : ℕ) → w.links.live t ≡ false → IsFree ts t
not_live-IsFree {w} {ts} v t d s = not_live-has w.links none (ts s) none t (v.linked s) d
