-- ===== src/Main/Handle/Queue.antt =====
-- What the handler does with the database and its queue (main.c).
use fritz2ci.Prelude.{
  ℕ, ◌≡◌, ◌≢◌, refl, sym, ap, subst, ◌∙◌, Bool, true, false, Bool-cases, inl, inr, Option, none,
  some, some-injective, List, [], ◌∷◌, ◌++◌, append_assoc, append-nil, ◌==◌, ◌>>=◌, >>=-eq-some,
}
use fritz2ci.Text.{Text, strcpy}
use fritz2ci.Lookup.Caller.{DataSet}
use fritz2ci.Fritz.Notify.{CallMsg, call_type, ring_type}
use fritz2ci.Main.Handle.{
  Services, Program, queue_data, ring_data, tell_ring, handle_ring, handle_call, dispatch,
  handle_fritz_message, handle_all,
}

-- What the database and its queue hold, in the order of the calls.
abbrev pub held : Program → List DataSet
held p = p.stored ++ p.todo

-- A waiting set keeps the database as it is.
abbrev Stuck : Program → Program → Type 0
Stuck p p' = p.todo ≢ [] → (p'.stored ≡ p.stored) × (p'.todo ≢ [])

not_nil : (xs : List DataSet) (d : DataSet) → (xs ++ (d ∷ [])) ≢ []
not_nil [] d e = cc
not_nil (x ∷ xs) d e = cc

queue_data-held :
    (todo : List DataSet) (added : Bool) (d : DataSet) (p : Program)
    → p.todo ≡ todo
    → (held (queue_data todo added d p) ≡ held p ++ (d ∷ [])) × Stuck p (queue_data todo added d p)
unfolding queue_data
queue_data-held [] true d p e = (
  rw e (append-nil (p.stored ++ (d ∷ [])) ∙ ap (λ z. z ++ (d ∷ [])) (sym (append-nil p.stored))),
  λ n. absurd (n e),
)
queue_data-held [] false d p e =
    (sym (append_assoc p.stored p.todo (d ∷ [])), λ n. (refl, not_nil p.todo d))
queue_data-held (x ∷ xs) added d p e =
    (sym (append_assoc p.stored p.todo (d ∷ [])), λ n. (refl, not_nil p.todo d))

-- The same database and queue.
same_held :
    (p p' : Program)
    → p'.stored ≡ p.stored
    → p'.todo ≡ p.todo
    → (held p' ≡ held p ++ []) × Stuck p p'
same_held p p' e e' =
    ((λ i. e i ++ e' i) ∙ sym (append-nil (held p)), λ n. (e, λ k. n (sym e' ∙ k)))

module _ {Date : Type 0} (services : Services Date) where
  open services use {format_date, get_caller_data}

  -- The data of a message that are for the database: those of an incoming call, once looked up.
  abbrev looked_up : Option DataSet → CallMsg Date → Option (List DataSet)
  looked_up none m = none
  looked_up (some d) m = do
    (d', rc) ← get_caller_data (record d { date = format_date m.datetime })
    some (d' ∷ [])

  abbrev recorded_from : Bool → CallMsg Date → Option (List DataSet)
  recorded_from true m = looked_up (ring_data services m) m
  recorded_from false m = some []

  abbrev pub recorded : CallMsg Date → Option (List DataSet)
  recorded m = recorded_from (m.msgtype == ring_type) m

  abbrev pub recorded_all : List (CallMsg Date × Text × Bool) → Option (List DataSet)
  recorded_all [] = some []
  recorded_all (x ∷ ms) =
      let rest = recorded_all ms in (do ds ← recorded x.0; ds' ← rest; some (ds ++ ds'))

  abbrev Keeps : Option (List DataSet) → Program → Program → Type 0
  Keeps o p p' = (ds : List DataSet) × (o ≡ some ds) × (held p' ≡ held p ++ ds) × Stuck p p'

  told_lem :
      (rc : ℕ) (d₀ d d' : DataSet) (msgid : Text) (added : Bool) (p : Program)
      → (held (tell_ring services d₀ d d' rc msgid added p) ≡ held p ++ (d' ∷ []))
        × Stuck p (tell_ring services d₀ d d' rc msgid added p)
  unfolding tell_ring
  told_lem rc d₀ d d' msgid added p = elim (Bool-cases (rc == 0)) [
    | inl e ↦ rw e (queue_data-held p.todo added d' _ refl)
    | inr e ↦ rw e (queue_data-held p.todo added d' _ refl)
  ]

  looked_up_lem :
      (o : Option DataSet) (m : CallMsg Date) (d : DataSet) (q : DataSet × ℕ)
      → o ≡ some d
      → get_caller_data (record d { date = format_date m.datetime }) ≡ some q
      → looked_up o m ≡ some (q.0 ∷ [])
  looked_up_lem o m d q e e' = ap (λ z. looked_up z m) e ∙ ap (λ z. z >>= λ x. some (x.0 ∷ [])) e'

  handle_ring-Keeps :
      (m : CallMsg Date) (msgid : Text) (added : Bool) (p p' : Program)
      → handle_ring services m msgid added p ≡ some p'
      → Keeps (looked_up (ring_data services m) m) p p'
  unfolding handle_ring
  handle_ring-Keeps m msgid added p p' e =
      let (d, e₁, e₂) = >>=-eq-some (ring_data services m) _ e in
      let (q, e₃, e₄) =
        >>=-eq-some (get_caller_data (record d { date = format_date m.datetime })) _ e₂ in
      let (h, s) = told_lem q.1 _ _ q.0 msgid added p in
      let same_end = some-injective _ p' e₄ in
      (
        q.0 ∷ [],
        looked_up_lem (ring_data services m) m d q e₁ e₃,
        subst (λ z. held z ≡ held p ++ (q.0 ∷ [])) same_end h,
        subst (Stuck p) same_end s,
      )

  handle_call-Keeps :
      (m : CallMsg Date) (p p' : Program)
      → handle_call services m p ≡ some p'
      → Keeps (some []) p p'
  unfolding handle_call
  handle_call-Keeps m p p' e =
      let (c, e₁, e₂) = >>=-eq-some (strcpy 32 m.called_number) _ e in
      let (n, e₃, e₄) = >>=-eq-some (strcpy 16 m.calling_number) _ e₂ in
      let same_end = some-injective _ p' e₄ in
      let (h, s) =
        same_held p p' (ap (λ (z : Program). z.stored) (sym same_end))
          (ap (λ (z : Program). z.todo) (sym same_end)) in
      ([], refl, h, s)

  dispatch-Keeps :
      (is_ring is_call : Bool) (m : CallMsg Date) (msgid : Text) (added : Bool) (p p' : Program)
      → dispatch services is_ring is_call m msgid added p ≡ some p'
      → Keeps (recorded_from is_ring m) p p'
  unfolding dispatch
  dispatch-Keeps true is_call m msgid added p p' e = handle_ring-Keeps m msgid added p p' e
  dispatch-Keeps false true m msgid added p p' e = handle_call-Keeps m p p' e
  dispatch-Keeps false false m msgid added p p' e =
      let (h, s) =
        same_held p p' (ap (λ (z : Program). z.stored) (sym (some-injective p p' e)))
          (ap (λ (z : Program). z.todo) (sym (some-injective p p' e))) in
      ([], refl, h, s)

  handle_fritz_message-Keeps :
      (m : CallMsg Date) (msgid : Text) (added : Bool) (p p' : Program)
      → handle_fritz_message services (some m) msgid added p ≡ some p'
      → Keeps (recorded m) p p'
  unfolding handle_fritz_message
  handle_fritz_message-Keeps m msgid added p p' e =
      dispatch-Keeps (m.msgtype == ring_type) (m.msgtype == call_type) m msgid added p p' e

  -- Whatever the messages are and whichever of the writes succeed: if no copy overruns its array, the
  -- sets in the database and behind them those in the queue are the ones that were there before, and
  -- behind them those of the incoming calls, each once, looked up, in the order of the calls.
  pub handle_all-held :
      (ms : List (CallMsg Date × Text × Bool)) (p p' : Program)
      → handle_all services ms p ≡ some p'
      → (ds : List DataSet) × (recorded_all ms ≡ some ds)
        × (p'.stored ++ p'.todo ≡ (p.stored ++ p.todo) ++ ds)
  unfolding handle_all
  handle_all-held [] p p' e =
      ([], refl, ap held (sym (some-injective p p' e)) ∙ sym (append-nil (held p)))
  handle_all-held (x ∷ ms) p p' e =
      let (q, e₁, e₂) = >>=-eq-some (handle_fritz_message services (some x.0) x.1 x.2 p) _ e in
      let (ds, r, h, s) = handle_fritz_message-Keeps x.0 x.1 x.2 p q e₁ in
      let (ds', r', h') = handle_all-held ms q p' e₂ in
      (ds ++ ds', rw (r, r') refl, h' ∙ ap (λ z. z ++ ds') h ∙ append_assoc (held p) ds ds')

  -- Once a set waits in the queue, the database is never written again: whatever the messages are,
  -- and though every write would succeed, it stays as it is, and the queue stays non-empty.
  pub handle_all-stuck :
      (ms : List (CallMsg Date × Text × Bool)) (p p' : Program)
      → p.todo ≢ []
      → handle_all services ms p ≡ some p'
      → (p'.stored ≡ p.stored) × (p'.todo ≢ [])
  unfolding handle_all
  handle_all-stuck [] p p' n e =
      subst (λ (z : Program). (z.stored ≡ p.stored) × (z.todo ≢ [])) (some-injective p p' e)
        (refl, n)
  handle_all-stuck (x ∷ ms) p p' n e =
      let (q, e₁, e₂) = >>=-eq-some (handle_fritz_message services (some x.0) x.1 x.2 p) _ e in
      let (ds, r, h, s) = handle_fritz_message-Keeps x.0 x.1 x.2 p q e₁ in
      let (same, still) = s n in
      let (same', still') = handle_all-stuck ms q p' still e₂ in (same' ∙ same, still')
