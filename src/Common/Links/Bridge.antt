-- ===== src/Common/Links/Bridge.antt =====
-- A node taken out of the middle of a list of linked nodes, and one put in.
use mathlib.Core.Path.{◌≡◌, refl, sym, ◌∙◌}
use mathlib.Core.Bool.{true, false}
use mathlib.Core.Option.{Option, none, some}
use mathlib.Core.List.{List, [], ◌∷◌, ◌++◌, append-nil}
use Prim.Native.Nat.{ℕ}
use native.Mathlib.Omega.{arith}
use study_record.Common.Threads.{update_self, update_other}
use study_record.Common.Links.{Links, link_next, link_prev, has, is_distinct, first, last, Seg}
use study_record.Common.Links.Laws.{
  Seg-split, Seg-append, Seg-link_next, Seg-link_prev, last-snoc, has-append,
  is_distinct-append_has, is_distinct-append_right, is_distinct-left, is_distinct-right,
  out_of_cons, distinct_cons, ==_sym, snoc-out, cons_out_append,
}

-- `l'` differs from `l` only in the links of these nodes.
pub record SameBut (xs : List ℕ) (l l' : Links) : Type 0 where
  pub live : (u : ℕ) → l'.live u ≡ l.live u
  pub prev : (u : ℕ) → has u xs ≡ false → l'.prev u ≡ l.prev u
  pub next : (u : ℕ) → has u xs ≡ false → l'.next u ≡ l.next u

-- `m` and what follows, joined.
abbrev pub bridged : ℕ → Option ℕ → Links → Links
bridged m none l = link_next m none l
bridged m (some q) l = link_prev q (some m) (link_next m (some q) l)

-- What stands around a node `t` that follows `m`.
pub record Around (l : Links) (ws : List ℕ) (m t : ℕ) (zs : List ℕ) : Type 0 where
  pub here : Seg l (last none (ws ++ m ∷ [])) (t ∷ zs) none
  pub prev_t : l.prev t ≡ some m
  pub before : Seg l none ws (some m)
  pub place : Seg l (last none ws) (m ∷ []) (some t)
  pub m_ws : has m ws ≡ false
  pub m_out : has m (t ∷ zs) ≡ false
  pub right : is_distinct (t ∷ zs) ≡ true

module _ (l : Links) (t m : ℕ) (ws : List ℕ) where
  abbrev ys : List ℕ
  ys = ws ++ m ∷ []

  pub Seg-Around :
      (zs : List ℕ)
      → Seg l none (ys ++ t ∷ zs) none
      → is_distinct (ys ++ t ∷ zs) ≡ true
      → Around l ws m t zs
  Seg-Around zs s d =
      let (left, here) = Seg-split l none ys (t ∷ zs) none s in
      let (before, place) = Seg-split l none ws (m ∷ []) (some t) left in
      let m_ys : has m ys ≡ true = has-append m ws (m ∷ []) ∙ ground arith in
      record {
        here = here;
        prev_t = here.1 ∙ last-snoc none ws m;
        before = before;
        place = place;
        m_ws =
            is_distinct-append_right m ws (m ∷ []) (is_distinct-left ys (t ∷ zs) d) (ground arith);
        m_out = is_distinct-append_has m ys (t ∷ zs) d m_ys;
        right = is_distinct-right ys (t ∷ zs) d;
      }

  pub Seg-bridged :
      (zs : List ℕ)
      → Around l ws m t zs
      → is_distinct (ys ++ t ∷ zs) ≡ true
      → Seg (bridged m (first zs none) l) none (ys ++ zs) none
        × SameBut (ys ++ t ∷ zs) l (bridged m (first zs none) l)
  Seg-bridged [] a d = (
    rw append-nil (
        Seg-append (link_next m none l) none ws (m ∷ []) none
          (Seg-link_next l none ws (some m) m none a.m_ws a.before)
          (a.place.0, a.place.1, update_self l.next m none, tt)),
    record {
      live = λ u. refl;
      prev = λ u h. refl;
      next = λ u h.
          let (front, _, _) = cons_out_append u t ys [] h in
          update_other l.next m u none (==_sym u m (snoc-out u m ws front).1);
    },
  )
  Seg-bridged (q ∷ qs) a d =
      let here = a.here in
      let place = a.place in
      let l1 = link_next m (some q) l in
      let l2 = link_prev q (some m) l1 in
      let (q_qs, _) = distinct_cons q qs (distinct_cons t (q ∷ qs) a.right).1 in
      let (q_ws, q_m) =
        snoc-out q m ws (is_distinct-append_right q ys (t ∷ q ∷ qs) d (ground arith)) in
      let (m_q, m_qs) = out_of_cons m q qs (out_of_cons m t (q ∷ qs) a.m_out).1 in
      (
        Seg-append l2 none ys (q ∷ qs) none
            (Seg-append l2 none ws (m ∷ []) (some q)
              (Seg-link_prev l1 none ws (some m) q (some m) q_ws
                (Seg-link_next l none ws (some m) m (some q) a.m_ws a.before))
              (
                place.0,
                update_other l.prev q m (some m) q_m ∙ place.1,
                update_self l.next m (some q),
                tt,
              ))
            (
              here.3.0,
              update_self l.prev q (some m) ∙ sym (last-snoc none ws m),
              update_other l.next m q (some q) m_q ∙ here.3.2,
              Seg-link_prev l1 (some q) qs none q (some m) q_qs
                  (Seg-link_next l (some q) qs none m (some q) m_qs here.3.3),
            ),
        record {
          live = λ u. refl;
          prev = λ u h.
              let (_, _, rest) = cons_out_append u t ys (q ∷ qs) h in
              update_other l.prev q u (some m) (==_sym u q (out_of_cons u q qs rest).0);
          next = λ u h.
              let (front, _, _) = cons_out_append u t ys (q ∷ qs) h in
              update_other l.next m u (some q) (==_sym u m (snoc-out u m ws front).1);
        },
      )
