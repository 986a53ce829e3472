-- ===== src/Coherence/Forgets.antt =====
-- L2Cache_check_mshr and L2ProcessTagReply of Caches/l2cache.c: an access joins the MSHR of a write.
use ml_rsim.Prelude.{
  ℕ, ◌+◌, ◌≡◌, refl, ap, ◌∙◌, ◌≢◌, Bool, true, false, not, ◌&&◌, some, [], ◌∷◌, ◌++◌, ok, ◌==◌,
  if_false, length, Bool-cases, inl, inr,
}
use ml_rsim.Req.{ReqType, read, reply_sh, ◌is◌, bad_req_type}
use ml_rsim.Cache.Line.{pr_dy}
use ml_rsim.Cache.Search.{Found, search}
use ml_rsim.Coherence.{Mshr, L2}
use ml_rsim.Coherence.Misses.{Access, mshr_coal, store_mshr, coalesce, matched, mshr_of, check_mshr}
use ml_rsim.Coherence.Single.{reply_state}

-- The MSHR `m` at `i` of the line of an access takes it.
pub record Joins (max_coals : ℕ) (c : L2) (a : Access) (i : ℕ) (m : Mshr) : Type 0 where
  pub code : Found
  pub index : ℕ
  pub finds : search c.cache a.vaddr a.paddr ≡ ok (code, index)
  pub of_line : mshr_of c a.paddr ≡ some (i, m)
  pub demands : (a.prefetch == 8) ≡ false
  pub undisturbed : m.pend_opers ≡ false
  pub waiting : m.releasing ≡ false
  pub no_stall : m.stall_war ≡ false
  pub main_writes : m.main_reads ≡ false
  pub room : (length m.coal_req + 1 == max_coals) ≡ false

and_false : (b c : Bool) → c ≡ false → (b && c) ≡ false
and_false true c e = e
and_false false c e = refl

false_and : (b c : Bool) → b ≡ false → (b && c) ≡ false
false_and b c e = ap (λ x. x && c) e

matched-coalesce :
    (now max_coals : ℕ) (c : L2) (a : Access) (i : ℕ) (m : Mshr)
    → Joins max_coals c a i m
    → matched now max_coals c a i m ≡ (store_mshr c i (coalesce now a m), a, mshr_coal, false)
unfolding matched
matched-coalesce now max_coals c a i m j =
    if_false m.pend_opers _ _ j.undisturbed
    ∙ if_false m.releasing _ _ j.waiting
    ∙ if_false m.stall_war _ _ j.no_stall
    ∙ if_false (not (a.prcr_req_type is read) && m.main_reads) _ _
        (and_false (not (a.prcr_req_type is read)) m.main_reads j.main_writes)
    ∙ if_false (length m.coal_req + 1 == max_coals) _ _ j.room

not_dirty : (w : Bool) (t : ReqType) → w ≡ false → reply_state false w t ≢ pr_dy
unfolding reply_state
not_dirty true t e = λ h. cc e
not_dirty false t e = elim (Bool-cases (t is reply_sh)) [
  | inl s ↦ λ h. cc (rw s at h)
  | inr s ↦ λ h. cc (rw s at h)
]

reaches :
    (now max_coals : ℕ) (prefetch_on : Bool) (c : L2) (a : Access) (i : ℕ) (m : Mshr)
    → Joins max_coals c a i m
    → check_mshr now max_coals prefetch_on c a ≡ ok (matched now max_coals c a i m)
unfolding check_mshr
reaches now max_coals prefetch_on c a i m j =
    rw (j.finds, j.of_line)
      (if_false ((a.prefetch == 8) && true) _ _ (false_and (a.prefetch == 8) true j.demands))

-- The MSHR of a write takes any access as its processor sends it, without a transaction type, and
-- has no writes then: the reply makes the line not dirty.
pub check_mshr-forgets :
    (now max_coals : ℕ) (prefetch_on : Bool) (c : L2) (a : Access) (i : ℕ) (m : Mshr)
    → Joins max_coals c a i m
    → a.req_type ≡ bad_req_type
    → (n : Mshr) × (check_mshr now max_coals prefetch_on c a
        ≡ ok (store_mshr c i n, a, mshr_coal, false))
      × (n.coal_req ≡ m.coal_req ++ a.id ∷ [])
      × ((t : ReqType) → reply_state false n.has_writes t ≢ pr_dy)
unfolding coalesce
check_mshr-forgets now max_coals prefetch_on c a i m j bad = (
  coalesce now a m,
  reaches now max_coals prefetch_on c a i m j ∙ ap ok (matched-coalesce now max_coals c a i m j),
  refl,
  λ t. not_dirty (coalesce now a m).has_writes t (rw bad),
)
