-- ===== src/Mmc/Reports.antt =====
-- Memory/mmc_bus.c: the reports on a request, in any order.
use ml_rsim.Prelude.{
  ℕ, suc, ◌+◌, ◌-◌, ◌%◌, ◌^◌, ◌<◌, ◌≡◌, refl, ap, ◌∙◌, ◌⊎◌, inl, inr, Bool, true, false, List, [],
  ◌∷◌, Checked, ok, fatal, ◌>>=◌, ◌==◌, arith, length, Bool-cases,
}
use ml_rsim.Req.{ReqType, is_upgrade, request}
use ml_rsim.Mmc.{Scored, send_reply, merge, recv_cohe_response, data_fetch_done}

-- A snooper answers, or the data comes from the memory.
pub data Report : Type 0 where
  response : ReqType → Report
  fetched : Report

abbrev pub receive : Report → Scored → Checked Scored
receive (response t) e = recv_cohe_response t e
receive fetched e = data_fetch_done e

-- The reports of a list, one after the other
unfoldable pub receive_all : List Report → Scored → Checked Scored
receive_all [] e = ok e
receive_all (r ∷ rs) e = receive r e >>= receive_all rs

abbrev pub responses : List Report → List ReqType
responses [] = []
responses (response t ∷ rs) = t ∷ responses rs
responses (fetched ∷ rs) = responses rs

abbrev pub fetches : List Report → ℕ
fetches [] = 0
fetches (response t ∷ rs) = fetches rs
fetches (fetched ∷ rs) = suc (fetches rs)

abbrev pub merge_all : ReqType → List ReqType → ReqType
merge_all t [] = t
merge_all t (s ∷ ss) = merge_all (merge t s) ss

abbrev pub awaited : Bool → ℕ
awaited true = 0
awaited false = 1

-- A request that still waits for a report, of which no copy was made
pub record Waits (e : Scored) (rs : List Report) : Type 0 where
  pub asks : e.req.kind ≡ request
  pub fresh : e.req.c2c_copy ≡ false
  pub counted : e.req.cohe_count ≡ length (responses rs)
  pub fits : e.req.cohe_count < 2 ^ 16
  pub returned : awaited e.req.data_rtn ≡ fetches rs
  pub granted : is_upgrade e.req.req_type ≡ true → e.req.data_rtn ≡ true

-- The request as it is when the last report has come
abbrev pub complete : List ReqType → Scored → Scored
complete ss e = record e {
  req = record e.req { cohe_count = 0; data_rtn = true; cohe_type = merge_all e.req.cohe_type ss };
}

abbrev pub with_response : ReqType → Scored → Scored
with_response t e = record e {
  req = record e.req { cohe_count = e.req.cohe_count - 1; cohe_type = merge e.req.cohe_type t };
}

-- A response counts, and only the last report makes the reply.
module _ (t : ReqType) (e : Scored) (asks : e.req.kind ≡ request) (fresh : e.req.c2c_copy ≡ false)
    (some_left : 0 < e.req.cohe_count) (fits : e.req.cohe_count < 2 ^ 16) where
  counts : (e.req.cohe_count + (2 ^ 16 - 1)) % 2 ^ 16 ≡ e.req.cohe_count - 1
  counts = omega arith

  response_last :
      e.req.cohe_count ≡ 1
      → e.req.data_rtn ≡ true
      → recv_cohe_response t e ≡ send_reply (with_response t e)
  unfolding recv_cohe_response
  response_last one d = rw (counts, one, d, fresh)

  response_more :
      (1 < e.req.cohe_count) ⊎ ((e.req.data_rtn ≡ false) × (is_upgrade e.req.req_type ≡ false))
      → recv_cohe_response t e ≡ ok (with_response t e)
  unfolding recv_cohe_response
  response_more (inl m) =
      let z : (e.req.cohe_count - 1 == 0) ≡ false = ground arith in rw (counts, z)
  response_more (inr (d, u)) = elim (Bool-cases (e.req.cohe_count - 1 == 0)) [
    | inl z ↦ rw (counts, z, d, u, asks)
    | inr z ↦ rw (counts, z)
  ]

abbrev pub with_data : Scored → Scored
with_data e = record e { req = record e.req { data_rtn = true } }

fetched_last :
    (e : Scored)
    → e.req.cohe_count ≡ 0
    → e.req.c2c_copy ≡ false
    → data_fetch_done e ≡ send_reply (with_data e)
unfolding data_fetch_done
fetched_last e z fresh = rw (z, fresh)

fetched_more : (e : Scored) → 0 < e.req.cohe_count → data_fetch_done e ≡ ok (with_data e)
unfolding data_fetch_done
fetched_more e m = let z : (e.req.cohe_count == 0) ≡ false = ground arith in rw z

Waits-response :
    (t : ReqType) (e : Scored) (rs : List Report)
    → Waits e (response t ∷ rs)
    → Waits (with_response t e) rs
Waits-response t e rs w = record {
  asks = w.asks;
  fresh = w.fresh;
  counted = omega (arith, w.counted);
  fits = omega (arith, w.fits);
  returned = w.returned;
  granted = w.granted;
}

Waits-fetched : (e : Scored) (rs : List Report) → Waits e (fetched ∷ rs) → Waits (with_data e) rs
Waits-fetched e rs w = record {
  asks = w.asks;
  fresh = w.fresh;
  counted = w.counted;
  fits = w.fits;
  returned = by_flag e.req.data_rtn w.returned;
  granted = λ _. refl;
}
  where
    by_flag : (d : Bool) → awaited d ≡ suc (fetches rs) → awaited true ≡ fetches rs
    by_flag true h = absurd (omega arith)
    by_flag false h = omega arith

data_came : (d : Bool) → awaited d ≡ 0 → d ≡ true
data_came true h = refl
data_came false h = absurd (omega arith)

data_waits : (d : Bool) (k : ℕ) → awaited d ≡ suc k → d ≡ false
data_waits true k h = absurd (omega arith)
data_waits false k h = refl

bind_end : (m : Checked Scored) → (m >>= receive_all []) ≡ m
unfolding receive_all
bind_end (ok e) = refl
bind_end fatal = refl

-- More reports follow a response: it is not the last, or the data has not come.
more_left :
    (t : ReqType) (r : Report) (rs : List Report) (e : Scored)
    → Waits e (response t ∷ r ∷ rs)
    → (1 < e.req.cohe_count) ⊎ ((e.req.data_rtn ≡ false) × (is_upgrade e.req.req_type ≡ false))
more_left t (response s) rs e w = inl (omega (arith, w.counted))
more_left t fetched rs e w =
    let d = data_waits e.req.data_rtn (fetches rs) w.returned in
    inr (
      d,
      elim (Bool-cases (is_upgrade e.req.req_type)) [
        | inl u ↦ absurd (cc (w.granted u, d))
        | inr u ↦ u
      ],
    )

still_counts :
    (r : Report) (rs : List Report) (e : Scored) → Waits e (fetched ∷ r ∷ rs) → 0 < e.req.cohe_count
still_counts (response t) rs e w = omega (arith, w.counted)
still_counts fetched rs e w = absurd (at_most_one e.req.data_rtn w.returned)
  where
    at_most_one : (d : Bool) → awaited d ≡ suc (suc (fetches rs)) → ⊥
    at_most_one true h = omega arith
    at_most_one false h = omega arith

-- In any order of the reports, the reply is sent with the last, and not before.
pub receive_all-Waits :
    (r : Report) (rs : List Report) (e : Scored)
    → Waits e (r ∷ rs)
    → receive_all (r ∷ rs) e ≡ send_reply (complete (responses (r ∷ rs)) e)
unfolding receive_all
receive_all-Waits (response t) [] e w =
    let one : e.req.cohe_count ≡ 1 = w.counted in
    let d = data_came e.req.data_rtn w.returned in
    let same : with_response t e ≡ complete (t ∷ []) e = rw (one, d) in
    rw (response_last t e w.asks w.fresh (omega arith) w.fits one d)
      (bind_end (send_reply (with_response t e)) ∙ ap send_reply same)
receive_all-Waits fetched [] e w =
    let none_left : e.req.cohe_count ≡ 0 = w.counted in
    let same : with_data e ≡ complete [] e = rw none_left in
    rw (fetched_last e none_left w.fresh) (bind_end (send_reply (with_data e)) ∙ ap send_reply same)
receive_all-Waits (response t) (r ∷ rs) e w =
    rw (response_more t e w.asks w.fresh (omega (arith, w.counted)) w.fits (more_left t r rs e w))
      (receive_all-Waits r rs (with_response t e) (Waits-response t e (r ∷ rs) w))
receive_all-Waits fetched (r ∷ rs) e w =
    rw (fetched_more e (still_counts r rs e w))
      (receive_all-Waits r rs (with_data e) (Waits-fetched e (r ∷ rs) w))
