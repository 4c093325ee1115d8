-- ===== src/Common/Links/Insert.antt =====
-- A node put between, before and behind linked nodes, by the writes in the order of the code.
use mathlib.Core.Path.{◌≡◌, refl, sym, ◌∙◌}
use mathlib.Core.Bool.{true, false}
use mathlib.Core.Option.{none, some}
use mathlib.Core.List.{List, [], ◌∷◌, ◌++◌}
use Prim.Native.Nat.{ℕ}
use native.Mathlib.Omega.{arith}
use study_record.Common.Tests.{◌==◌}
use study_record.Common.Threads.{update, update_self, update_other}
use study_record.Common.Links.{Links, link_next, link_prev, has, is_distinct, last, Seg}
use study_record.Common.Links.Laws.{
  Seg-append, Seg-frame, last-snoc, has-append, out_of_cons, distinct_cons, ==_sym, apart,
}

-- `t` between `m` and `a`, behind `m`, and before `h`.
abbrev pub put_between : ℕ → ℕ → ℕ → Links → Links
put_between m t a l =
    link_prev t (some m) (link_prev a (some t) (link_next t (some a) (link_next m (some t) l)))

abbrev pub put_behind : ℕ → ℕ → Links → Links
put_behind m t l = link_next t none (link_prev t (some m) (link_next m (some t) l))

abbrev pub put_before : ℕ → ℕ → Links → Links
put_before t h l = link_prev t none (link_next t (some h) (link_prev h (some t) l))

pub is_distinct-insert :
    (t : ℕ) (xs ys : List ℕ)
    → is_distinct (xs ++ ys) ≡ true
    → has t (xs ++ ys) ≡ false
    → is_distinct (xs ++ t ∷ ys) ≡ true
is_distinct-insert t [] ys d h = ground arith
is_distinct-insert t (x ∷ xs) ys d h =
    ground
      (arith, has-append x xs ys, has-append x xs (t ∷ ys), ==_sym t x, is_distinct-insert t xs ys)

module _ (l : Links) (t : ℕ) (live : l.live t ≡ true) where
  pub Seg-put_before :
      (h : ℕ) (hs : List ℕ)
      → Seg l none (h ∷ hs) none
      → is_distinct (h ∷ hs) ≡ true
      → has t (h ∷ hs) ≡ false
      → Seg (put_before t h l) none (t ∷ h ∷ hs) none
  Seg-put_before h hs s d out =
      let (t_h, t_hs) = out_of_cons t h hs out in
      let (h_hs, _) = distinct_cons h hs d in
      (
        live,
        update_self (update l.prev h (some t)) t none,
        update_self l.next t (some h),
        (
          s.0,
          update_other (update l.prev h (some t)) t h none t_h ∙ update_self l.prev h (some t),
          update_other l.next t h (some h) t_h ∙ s.2,
          Seg-frame l (put_before t h l) (some h) hs none
              (λ u i. (refl, prev_kept u i t_hs h_hs, next_kept u i t_hs)) s.3,
        ),
      )
    where
      prev_kept :
          (u : ℕ)
          → has u hs ≡ true
          → has t hs ≡ false
          → has h hs ≡ false
          → (put_before t h l).prev u ≡ l.prev u
      prev_kept u i t_hs h_hs =
          update_other (update l.prev h (some t)) t u none (apart t u hs t_hs i)
          ∙ update_other l.prev h u (some t) (apart h u hs h_hs i)

      next_kept :
          (u : ℕ) → has u hs ≡ true → has t hs ≡ false → (put_before t h l).next u ≡ l.next u
      next_kept u i t_hs = update_other l.next t u (some h) (apart t u hs t_hs i)

  module _ (m : ℕ) (ws : List ℕ) (t_ws : has t ws ≡ false) (t_m : (t == m) ≡ false)
      (m_ws : has m ws ≡ false) (before : Seg l none ws (some m)) (live_m : l.live m ≡ true)
      (prev_m : l.prev m ≡ last none ws) where
    behind_segment : Seg (put_behind m t l) none (ws ++ m ∷ []) (some t)
    behind_segment =
        Seg-append (put_behind m t l) none ws (m ∷ []) (some t)
          (Seg-frame l (put_behind m t l) none ws (some m)
            (λ u i. (
              refl,
              update_other l.prev t u (some m) (apart t u ws t_ws i),
              update_other (update l.next m (some t)) t u none (apart t u ws t_ws i)
                  ∙ update_other l.next m u (some t) (apart m u ws m_ws i),
            ))
            before)
          (
            live_m,
            update_other l.prev t m (some m) t_m ∙ prev_m,
            update_other (update l.next m (some t)) t m none t_m ∙ update_self l.next m (some t),
            tt,
          )

    pub Seg-put_behind : Seg (put_behind m t l) none ((ws ++ m ∷ []) ++ t ∷ []) none
    Seg-put_behind =
        Seg-append (put_behind m t l) none (ws ++ m ∷ []) (t ∷ []) none behind_segment (
          live,
          update_self l.prev t (some m) ∙ sym (last-snoc none ws m),
          update_self (update l.next m (some t)) t none,
          tt,
        )

    module _ (a : ℕ) (as_ : List ℕ) (t_a : (t == a) ≡ false) (t_as : has t as_ ≡ false)
        (a_ws : has a ws ≡ false) (a_m : (a == m) ≡ false) (a_as : has a as_ ≡ false)
        (m_as : has m as_ ≡ false) (behind : Seg l (some m) (a ∷ as_) none) where
      abbrev new : Links
      new = put_between m t a l

      between_segment : Seg new none (ws ++ m ∷ []) (some t)
      between_segment =
          Seg-append new none ws (m ∷ []) (some t)
            (Seg-frame l new none ws (some m)
              (λ u i. (
                refl,
                update_other (update l.prev a (some t)) t u (some m) (apart t u ws t_ws i)
                    ∙ update_other l.prev a u (some t) (apart a u ws a_ws i),
                update_other (update l.next m (some t)) t u (some a) (apart t u ws t_ws i)
                    ∙ update_other l.next m u (some t) (apart m u ws m_ws i),
              ))
              before)
            (
              live_m,
              update_other (update l.prev a (some t)) t m (some m) t_m
                  ∙ update_other l.prev a m (some t) a_m
                  ∙ prev_m,
              update_other (update l.next m (some t)) t m (some a) t_m
                  ∙ update_self l.next m (some t),
              tt,
            )

      rest_segment : Seg new (some a) as_ none
      rest_segment =
          Seg-frame l new (some a) as_ none
            (λ u i. (
              refl,
              update_other (update l.prev a (some t)) t u (some m) (apart t u as_ t_as i)
                  ∙ update_other l.prev a u (some t) (apart a u as_ a_as i),
              update_other (update l.next m (some t)) t u (some a) (apart t u as_ t_as i)
                  ∙ update_other l.next m u (some t) (apart m u as_ m_as i),
            ))
            behind.3

      pub Seg-put_between : Seg new none ((ws ++ m ∷ []) ++ t ∷ a ∷ as_) none
      Seg-put_between = Seg-append new none (ws ++ m ∷ []) (t ∷ a ∷ as_) none between_segment (
        live,
        update_self (update l.prev a (some t)) t (some m) ∙ sym (last-snoc none ws m),
        update_self (update l.next m (some t)) t (some a),
        (
          behind.0,
          update_other (update l.prev a (some t)) t a (some m) t_a ∙ update_self l.prev a (some t),
          update_other (update l.next m (some t)) t a (some a) t_a
              ∙ update_other l.next m a (some t) (==_sym a m a_m)
              ∙ behind.2,
          rest_segment,
        ),
      )
