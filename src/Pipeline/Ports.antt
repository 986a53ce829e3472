-- ===== src/Pipeline/Ports.antt =====
-- `AddToPipe`: when a request is let in.
use ml_rsim.Prelude.{
  ℕ, ◌+◌, ◌-◌, ◌*◌, ◌<◌, ◌≤◌, ◌≡◌, refl, bump, ap, ◌∙◌, inl, inr, Bool, true, false, some, List, [],
  ◌∷◌, ◌++◌, arith, Checked, ok, fatal, ltb, leb, ◌==◌, if◌then◌else◌, Bool-cases, ltb→lt,
  leb_false→lt, lt→leb_false, le→leb, ne_zero, leb→le, length, get_elem?, replicate, get_elem?-some,
  get_elem?-none, get_elem?-replicate, get_elem?-set_ne,
}
use native.Mathlib.Nat.{mul-pos, mod-lt, mul-le-mul_right, mod-eq_of_lt}
use ml_rsim.Pipeline.{
  PipeElm, Pipeline, cleared, new_pipeline, port_index, ports_busy, enter, add_to_pipe,
}
use ml_rsim.Pipeline.Queue.{Holds, enter-Holds}

module _ {ℓ} {A : Type ℓ} where
  -- What `AddToPipe` answers: 0 for a full pipeline, and for one with at least `ports` requests where
  -- the repeat rate has not passed since the time in the element at `port_index`; else 1.
  pub data Added (now : ℕ) (p : Pipeline A) (xs : List (PipeElm A)) (req : A)
      (r : Checked (Pipeline A × Bool)) : Type ℓ where
    full : r ≡ ok (p, false) → p.stages * p.ports ≤ p.count → Added now p xs req r
    busy :
        (e : PipeElm A)
        → r ≡ ok (p, false)
        → p.ports ≤ p.count
        → get_elem? p.elms (port_index p) ≡ some e
        → now < e.time + p.repeat_rate
        → Added now p xs req r
    added :
        r ≡ ok (enter now p req, true)
        → p.count < p.stages * p.ports
        → Holds (enter now p req) (xs ++ record { elm = some req; time = now } ∷ [])
        → Added now p xs req r

  add_to_pipe-full :
      (now : ℕ) (p : Pipeline A) (req : A)
      → leb (p.stages * p.ports) p.count ≡ true
      → add_to_pipe now p req ≡ ok (p, false)
  unfolding add_to_pipe
  add_to_pipe-full now p req h = simp h

  add_to_pipe-room :
      (now : ℕ) (p : Pipeline A) (req : A) (b : Bool)
      → leb (p.stages * p.ports) p.count ≡ false
      → (p.latency * p.ports == 0) ≡ false
      → ports_busy now p ≡ ok b
      → add_to_pipe now p req ≡ (if b then ok (p, false) else ok (enter now p req, true))
  unfolding add_to_pipe
  add_to_pipe-room now p req b h l k = simp (h, l, k)

  ports_busy-many :
      (now : ℕ) (p : Pipeline A) (e : PipeElm A)
      → leb p.ports p.count ≡ true
      → get_elem? p.elms (port_index p) ≡ some e
      → ports_busy now p ≡ ok (ltb now (e.time + p.repeat_rate))
  unfolding ports_busy
  ports_busy-many now p e h k = simp (h, k)

  ports_busy-few :
      (now : ℕ) (p : Pipeline A) → leb p.ports p.count ≡ false → ports_busy now p ≡ ok false
  unfolding ports_busy
  ports_busy-few now p h = simp h

  index_in :
      (p : Pipeline A) (xs : List (PipeElm A))
      → Holds p xs
      → 0 < p.ports
      → 0 < p.latency
      → p.latency ≤ p.stages
      → port_index p < length p.elms
  unfolding port_index
  index_in p xs h ports lat le =
      let small = mod-lt (p.head + p.ports - 1) (mul-pos lat ports) in
      let wide = mul-le-mul_right p.ports le in omega (arith, small, wide, h.storage)

  -- In a pipeline with a latency of at least 1 and at most `stages` cycles, `AddToPipe` never faults:
  -- it refuses the request and changes nothing, or puts it behind the others.
  pub add_to_pipe-Added :
      (now : ℕ) (p : Pipeline A) (xs : List (PipeElm A)) (req : A)
      → Holds p xs
      → 0 < p.ports
      → 0 < p.latency
      → p.latency ≤ p.stages
      → Added now p xs req (add_to_pipe now p req)
  add_to_pipe-Added now p xs req h ports lat le =
      elim (Bool-cases (leb (p.stages * p.ports) p.count)) [
        | inl f ↦ full (add_to_pipe-full now p req f) (leb→le _ _ f)
        | inr room ↦
            let lt = leb_false→lt (p.stages * p.ports) p.count room in
            let pos = ne_zero (p.latency * p.ports) (mul-pos lat ports) in
            let enters = enter-Holds p now req h lt in
            elim (Bool-cases (leb p.ports p.count)) [
              | inl many ↦
                  let (e, at) =
                    get_elem?-some p.elms (port_index p) (index_in p xs h ports lat le) in
                  let b = ports_busy-many now p e many at in
                  elim (Bool-cases (ltb now (e.time + p.repeat_rate))) [
                    | inl early ↦
                        busy e (add_to_pipe-room now p req true room pos (b ∙ ap ok early))
                          (leb→le _ _ many) at (ltb→lt _ _ early)
                    | inr late ↦
                        added (add_to_pipe-room now p req false room pos (b ∙ ap ok late)) lt enters
                  ]
              | inr few ↦
                  added (add_to_pipe-room now p req false room pos (ports_busy-few now p few)) lt
                    enters
            ]
      ]

  -- Where the latency is above `stages`, the element that `AddToPipe` compares the time with can lie
  -- outside the array.
  pub add_to_pipe-outside :
      (now : ℕ) (p : Pipeline A) (xs : List (PipeElm A)) (req : A)
      → Holds p xs
      → p.ports ≤ p.count
      → p.count < p.stages * p.ports
      → p.stages * p.ports ≤ p.head + p.ports - 1
      → p.head + p.ports - 1 < p.latency * p.ports
      → add_to_pipe now p req ≡ fatal
  unfolding add_to_pipe ports_busy port_index
  add_to_pipe-outside now p xs req h many room out inside = simp (
    lt→leb_false _ _ room,
    ne_zero (p.latency * p.ports) (omega (arith, inside)),
    le→leb _ _ many,
    mod-eq_of_lt inside,
    get_elem?-none p.elms (p.head + p.ports - 1) (omega (arith, h.storage, out)),
  )

  fresh : ℕ → Pipeline A
  fresh latency = record {
    ports = 1;
    latency = latency;
    repeat_rate = 1;
    stages = latency;
    count = 0;
    elms = replicate (latency * 1) cleared;
    head = 0;
    tail = 0;
  }

  fresh-eq : (latency : ℕ) → 0 < latency → new_pipeline 1 latency 1 latency ≡ ok (fresh latency)
  unfolding new_pipeline fresh
  fresh-eq latency h = simp (ne_zero latency h)

  first_in :
      (latency now : ℕ) (a : A)
      → 1 < latency
      → add_to_pipe now (fresh latency) a ≡ ok (enter now (fresh latency) a, true)
  unfolding fresh
  first_in latency now a h =
      add_to_pipe-room now (fresh latency) a false (lt→leb_false (latency * 1) 0 (omega (arith, h)))
        (ne_zero (latency * 1) (omega (arith, h))) (ports_busy-few now (fresh latency) refl)

  second_index :
      (latency now : ℕ) (a : A) → 1 < latency → port_index (enter now (fresh latency) a) ≡ 1
  unfolding fresh enter port_index
  second_index latency now a h =
      let start : bump 0 (latency * 1) ≡ 1 = ground (arith, h) in
      rw start (mod-eq_of_lt (omega (arith, h)))

  second_slot :
      (latency now : ℕ) (a : A)
      → 1 < latency
      → get_elem? (enter now (fresh latency) a).elms (port_index (enter now (fresh latency) a))
        ≡ some cleared
  unfolding fresh enter
  second_slot latency now a h =
      ap (get_elem? (enter now (fresh latency) a).elms) (second_index latency now a h)
      ∙ get_elem?-set_ne (replicate (latency * 1) cleared) 0 1 (record { elm = some a; time = now })
          (λ e. omega (arith, e))
      ∙ get_elem?-replicate (latency * 1) cleared 1 (omega (arith, h))

  second_in :
      (latency now : ℕ) (a b : A)
      → 1 < latency
      → 0 < now
      → let p = enter now (fresh latency) a in add_to_pipe now p b ≡ ok (enter now p b, true)
  unfolding fresh enter
  second_in latency now a b h t =
      let p = enter now (fresh latency) a in
      add_to_pipe-room now p b false (lt→leb_false (latency * 1) 1 (omega (arith, h)))
        (ne_zero (latency * 1) (omega (arith, h)))
        (ports_busy-many now p cleared refl (second_slot latency now a h) ∙ ap ok (late t))
    where
      late : 0 < now → ltb now (0 + 1) ≡ false
      late g = ground (arith, g)

  -- A new pipeline with one port and a stage for each cycle of its latency, at least two, lets in two
  -- requests in one cycle.
  pub new_pipeline-two_at_once :
      (latency now : ℕ) (a b : A)
      → 1 < latency
      → 0 < now
      → (p q r : Pipeline A) × (new_pipeline 1 latency 1 latency ≡ ok p)
        × (add_to_pipe now p a ≡ ok (q, true))
        × (add_to_pipe now q b ≡ ok (r, true))
  new_pipeline-two_at_once latency now a b h t = (
    fresh latency,
    enter now (fresh latency) a,
    enter now (enter now (fresh latency) a) b,
    fresh-eq latency (omega (arith, h)),
    first_in latency now a h,
    second_in latency now a b h t,
  )
