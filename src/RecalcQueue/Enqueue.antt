-- ===== src/RecalcQueue/Enqueue.antt =====
-- `enqueueRecalcJob` of app/lib/recalc-queue.server.ts: no request for work is lost.
use my_meridian.Base.{
  ℕ, ◌≤◌, Bool, true, ◌&&◌, Option, none, some, [], ◌∷◌, ◌≡◌, ◌≢◌, refl, sym, ◌∙◌, ap, inl, inr,
  arith, Bool-cases, Option-cases, ◌==◌, ==_iff, String, or_else,
}
use my_meridian.Base.Keys.{◌=?◌, string_eq}
use mathlib.Core.Path.{subst}
use mathlib.Core.Option.{some-injective, none-ne-some}
use my_meridian.RecalcQueue.{
  Job, Jobs, EnqueueRecalcJob, has_key, find_key, new_job, create_job, absorb, absorbed,
  release_key, enqueue_found, enqueue_recalc_job, is_queued, same_id,
}
use my_meridian.Base.Table.{update_many, count_where, append_row, count_where-append_row}

-- A queued row with the payload.
abbrev pub waits_with : String → Job → Bool
waits_with payload j = is_queued j.status && payload =? j.payload

alone : ℕ → Jobs → Jobs
alone _ js = js

same_string : (s : String) → (s =? s) ≡ true
same_string s = (string_eq.beq_iff s s).1 refl

-- An update that makes its row wait leaves one that waits.
absorb-waits :
    (k payload : String) (available : ℕ) (e : Job) (js : Jobs)
    → find_key k js ≡ some e
    → is_queued e.status ≡ true
    → (1 ≤ count_where (same_id e) js)
      × (1
          ≤ count_where
              (waits_with payload)
              (update_many (same_id e) (absorbed e payload available) js))
unfolding find_key
absorb-waits k payload available e [] h w = absurd (none-ne-some _ h)
absorb-waits k payload available e (j ∷ js) h w = elim (Bool-cases (has_key k j)) [
  | inl t ↦
      let same : j ≡ e = some-injective _ _ (sym (rw t refl) ∙ h) in
      let here : (j.id == e.id) ≡ true = (==_iff _ _).1 (ap (λ (i : Job). i.id) same) in
      let waits : is_queued j.status ≡ true =
        subst (λ (i : Job). is_queued i.status ≡ true) (sym same) w in
      (rw here omega arith, rw (here, waits, same_string payload) omega arith)
  | inr n ↦
      let later : find_key k js ≡ some e = rw n refl ∙ h in
      let (c, u) = absorb-waits k payload available e js later w in
      (omega (arith, c), omega (arith, u))
]

absorb-some :
    (e : Job) (payload : String) (available : ℕ) (js : Jobs)
    → 1 ≤ count_where (same_id e) js
    → absorb e payload available js
      ≡ some (update_many (same_id e) (absorbed e payload available) js)
unfolding absorb
absorb-some e payload available js h = elim (Bool-cases (count_where (same_id e) js == 0)) [
  | inl z ↦
      let absent : count_where (same_id e) js ≡ 0 = (==_iff _ _).0 z in
      absurd (omega (arith, h, absent))
  | inr n ↦ rw n refl
]

create_job-waits :
    (id now : ℕ) (input : EnqueueRecalcJob) (available : ℕ) (js : Jobs)
    → input.job_key ≢ some ""
    → (next : Jobs) × (create_job id now input available js ≡ some next)
      × (1 ≤ count_where (waits_with input.job_payload) next)
unfolding create_job
create_job-waits id now input available js named =
    let added = λ (key : Option String).
      count_where-append_row (waits_with input.job_payload) js
        (new_job id now input key available) in
    let queued_with = λ (key : Option String). append_row js (new_job id now input key available) in
    let one : (key : Option String)
        → 1 ≤ count_where (waits_with input.job_payload) (queued_with key) =
      λ key. omega (arith, rw (same_string input.job_payload) at added key) in
    elim (Option-cases input.job_key) [
      | inl n ↦ (queued_with none, rw n refl, one none)
      | inr (k, s) ↦ elim (Option-cases (find_key k js)) [
        | inl f ↦ (queued_with (some k), rw (create_job, s, f) refl, one (some k))
        | inr (d, f) ↦ elim (Bool-cases (k =? "")) [
          | inl e ↦ absurd (named (s ∙ ap (λ (t : String). some t) ((string_eq.beq_iff k "").0 e)))
          | inr e ↦ (queued_with none, rw (create_job, s, f, e) refl, one none)
        ]
      ]
    ]

routed :
    {o p : Option Jobs} (payload : String)
    → o ≡ p
    → (next : Jobs) × (p ≡ some next) × (1 ≤ count_where (waits_with payload) next)
    → (next : Jobs) × (o ≡ some next) × (1 ≤ count_where (waits_with payload) next)
routed payload route (next, made, waits) = (next, route ∙ made, waits)

-- No request is lost: with a key that is not empty, or with none, and with nobody else between its
-- statements, an enqueue does not throw and leaves a queued job with the payload that it was given,
-- whether it found the key free, on a queued job or on one that has started.
pub enqueue_leaves_work :
    (id now : ℕ) (input : EnqueueRecalcJob) (js : Jobs)
    → input.job_key ≢ some ""
    → (next : Jobs) × (enqueue_recalc_job id now input (λ _ t. t) js ≡ some next)
      × (1 ≤ count_where (waits_with input.job_payload) next)
unfolding enqueue_recalc_job enqueue_found absorb
enqueue_leaves_work id now input js named =
    let at = or_else input.eligible_at now in
    let by_create =
      λ (is : Jobs)
          (route : enqueue_recalc_job id now input (λ _ t. t) js ≡ create_job id now input at is).
        routed input.job_payload route (create_job-waits id now input at is named) in
    elim (Option-cases input.job_key) [
      | inl n ↦ by_create js (rw n refl)
      | inr (k, s) ↦ elim (Bool-cases (k =? "")) [
        | inl e ↦ absurd (named (s ∙ ap (λ (t : String). some t) ((string_eq.beq_iff k "").0 e)))
        | inr e ↦ elim (Option-cases (find_key k js)) [
          | inl f ↦ by_create js (simp (enqueue_recalc_job, s, e, f) refl)
          | inr (d, f) ↦ elim (Bool-cases (is_queued d.status)) [
            | inl w ↦
                let (c, u) = absorb-waits k input.job_payload at d js f w in
                (
                  update_many (same_id d) (absorbed d input.job_payload at) js,
                  simp (enqueue_recalc_job, s, e, f, w) (absorb-some d input.job_payload at js c),
                  u,
                )
            | inr w ↦ by_create (release_key d k js) (simp (enqueue_recalc_job, s, e, f, w) refl)
          ]
        ]
      ]
    ]
