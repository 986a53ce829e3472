-- ===== src/Mmc/Quiet.antt =====
-- Memory/mmc_bus.c: reports on a request that bring no reply.
use ml_rsim.Prelude.{
  suc, ◌+◌, ◌-◌, ◌%◌, ◌^◌, ◌<◌, ◌≤◌, ◌≡◌, refl, ap, ◌∙◌, ◌⊎◌, inl, inr, Bool, true, false, List, [],
  ◌∷◌, ◌++◌, ok, ◌==◌, arith, length, Bool-cases,
}
use ml_rsim.Req.{ReqType, is_upgrade, request}
use ml_rsim.Mmc.{Scored, merge, recv_cohe_response, data_fetch_done}
use ml_rsim.Mmc.Reports.{
  Report, response, fetched, receive_all, responses, merge_all, with_response, with_data,
}

abbrev pub came : List Report → Bool → Bool
came [] d = d
came (response t ∷ rs) d = came rs d
came (fetched ∷ rs) d = came rs true

-- The request after reports that bring no reply
abbrev pub reported : List Report → Scored → Scored
reported rs e = record e {
  req = record e.req {
    cohe_count = e.req.cohe_count - length (responses rs);
    cohe_type = merge_all e.req.cohe_type (responses rs);
    data_rtn = came rs e.req.data_rtn;
  };
}

-- A request for data, where a copy was made or not all have answered
pub record Quiet (rs : List Report) (e : Scored) : Type 0 where
  pub asks : e.req.kind ≡ request
  pub reads : is_upgrade e.req.req_type ≡ false
  pub counted : length (responses rs) ≤ e.req.cohe_count
  pub fits : e.req.cohe_count < 2 ^ 16
  pub held : (e.req.c2c_copy ≡ true) ⊎ (length (responses rs) < e.req.cohe_count)

response_quiet :
    (t : ReqType) (rs : List Report) (e : Scored)
    → Quiet (response t ∷ rs) e
    → recv_cohe_response t e ≡ ok (with_response t e)
unfolding recv_cohe_response
response_quiet t rs e q =
    let counts : (e.req.cohe_count + (2 ^ 16 - 1)) % 2 ^ 16 ≡ e.req.cohe_count - 1 =
      omega (arith, q.counted, q.fits) in
    elim (Bool-cases (e.req.cohe_count - 1 == 0)) [
      | inr z ↦ rw (counts, z)
      | inl z ↦ elim q.held [
        | inr more ↦ absurd (ground arith)
        | inl c ↦ elim (Bool-cases e.req.data_rtn) [
          | inl d ↦ rw (counts, z, d, c, q.reads, q.asks)
          | inr d ↦ rw (counts, z, d, q.reads, q.asks)
        ]
      ]
    ]

fetched_quiet :
    (rs : List Report) (e : Scored) → Quiet (fetched ∷ rs) e → data_fetch_done e ≡ ok (with_data e)
unfolding data_fetch_done
fetched_quiet rs e q = elim (Bool-cases (e.req.cohe_count == 0)) [
  | inr z ↦ rw z
  | inl z ↦ elim q.held [ inr more ↦ absurd (ground arith) | inl c ↦ rw (z, c) ]
]

Quiet-response :
    (t : ReqType) (rs : List Report) (e : Scored)
    → Quiet (response t ∷ rs) e
    → Quiet rs (with_response t e)
Quiet-response t rs e q = record {
  asks = q.asks;
  reads = q.reads;
  counted = omega (arith, q.counted);
  fits = omega (arith, q.fits);
  held = elim q.held [ inl c ↦ inl c | inr more ↦ inr (omega arith) ];
}

pub receive_all-Quiet :
    (rs : List Report) (e : Scored) → Quiet rs e → receive_all rs e ≡ ok (reported rs e)
unfolding receive_all
receive_all-Quiet [] e q =
    let z : e.req.cohe_count ≡ e.req.cohe_count - 0 = omega arith in
    ap (λ c. ok (record e { req = record e.req { cohe_count = c } })) z
receive_all-Quiet (response t ∷ rs) e q = rw (response_quiet t rs e q) (
    receive_all-Quiet rs (with_response t e) (Quiet-response t rs e q)
    ∙ ap
        (λ c. ok (record (reported (response t ∷ rs) e) {
          req = record (reported (response t ∷ rs) e).req { cohe_count = c };
        }))
        one_less)
  where
    one_less :
        e.req.cohe_count - 1 - length (responses rs)
        ≡ e.req.cohe_count - suc (length (responses rs))
    one_less = omega arith
receive_all-Quiet (fetched ∷ rs) e q = rw (fetched_quiet rs e q) (
    receive_all-Quiet rs (with_data e) (record {
      asks = q.asks;
      reads = q.reads;
      counted = q.counted;
      fits = q.fits;
      held = q.held;
    }))

pub merge_all-append :
    (t : ReqType) (ss ts : List ReqType) → merge_all (merge_all t ss) ts ≡ merge_all t (ss ++ ts)
merge_all-append t [] ts = refl
merge_all-append t (s ∷ ss) ts = merge_all-append (merge t s) ss ts
