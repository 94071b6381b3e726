-- ===== src/Queue/Declared.antt =====
-- What a consumer declares: the queue that it consumes from.
use be_pawfund.Prelude.{
  ◌≡◌, refl, sym, ap, ◌∙◌, true, false, Option, none, some, List, [], ◌∷◌, ◌++◌, Member,
  Member-append_left, arith, Bool-cases, inl, inr,
}
use be_pawfund.Text.{Text, is_empty, text_eq, trim_space}
use be_pawfund.Text.Laws.{text_eq_sound}
use be_pawfund.Text.Trim.{trim_space_idem}
use be_pawfund.Queue.{
  Topology, built, is_valid_topology, matched_queue, with_queue, consumer_topology, ConsumerConfig,
  Consumer, consumer_of, new_consumer, Declaration, queue_declare, declarations, run_declarations,
  declare,
}

matched_queue-same : (name own q : Text) → matched_queue name own ≡ some q → q ≡ name
matched_queue-same name own q h = elim (Bool-cases (is_empty own)) [
  | inl e ↦ ground arith
  | inr e ↦ elim (Bool-cases (text_eq own name)) [
    | inl s ↦ let same = text_eq_sound own name s in ground arith
    | inr s ↦ ground arith
  ]
]

with_queue-same :
    (t : Topology) (o : Option Text) (m : Topology)
    → with_queue t o ≡ some (some m)
    → (q : Text) × (o ≡ some q) × (m.queue ≡ q) × (is_valid_topology m ≡ true)
with_queue-same t none m h = ground arith
with_queue-same t (some q) m h = elim (Bool-cases (is_valid_topology (record t { queue = q }))) [
  | inl e ↦
      let same : record t { queue = q } ≡ m = ground arith in
      (q, refl, ap (λ x. x.queue) (sym same), ap is_valid_topology (sym same) ∙ e)
  | inr e ↦ ground arith
]

consumer_topology-same :
    (name : Text) (o : Option Topology) (m : Topology)
    → consumer_topology name o ≡ some (some m)
    → (m.queue ≡ name) × (is_valid_topology m ≡ true)
unfolding consumer_topology
consumer_topology-same name none m h = ground arith
consumer_topology-same name (some t) m h =
    let (q, found, own, valid) = with_queue-same t (matched_queue name (trim_space t.queue)) m h in
    (own ∙ matched_queue-same name (trim_space t.queue) q found, valid)

all_made : (ds : List Declaration) → run_declarations (λ d. true) ds ≡ (true, ds)
unfolding run_declarations
all_made [] = refl
all_made (d ∷ ds) = rw (all_made ds)

declare_all :
    (t : Topology) → is_valid_topology t ≡ true → declare (λ d. true) t ≡ (true, declarations t)
unfolding declare
declare_all t valid = rw valid (all_made (declarations t))

Member-append_right : {A : Type 0} (a : A) (xs ys : List A) → Member a ys → Member a (xs ++ ys)
Member-append_right a [] ys m = m
Member-append_right a (x ∷ xs) ys m = inr (Member-append_right a xs ys m)

Member-middle : {A : Type 0} (a : A) (xs ys : List A) → Member a (xs ++ a ∷ [] ++ ys)
Member-middle a xs ys =
    Member-append_left (xs ++ a ∷ []) ys a (Member-append_right a xs (a ∷ []) (inl refl))

declared :
    (t : Topology)
    → is_empty (trim_space t.queue) ≡ false
    → Member
        (queue_declare (trim_space t.queue) t.durable t.auto_delete t.exclusive)
        (declarations t)
unfolding declarations
declared t given = rw given (Member-middle _ _ _)

declares_queue :
    (t : Topology) (queue : Text)
    → t.queue ≡ queue
    → trim_space queue ≡ queue
    → is_empty queue ≡ false
    → is_valid_topology t ≡ true
    → ((declare (λ d. true) t).0 ≡ true)
      × Member (queue_declare queue t.durable t.auto_delete t.exclusive) (declare (λ d. true) t).1
declares_queue t queue own plain given valid =
    let name : trim_space t.queue ≡ queue = ap trim_space own ∙ plain in
    let all = declare_all t valid in
    (ap (λ x. x.0) all, rw all (rw (← name) (declared t (ap is_empty name ∙ given))))

consumer_of-topology :
    (queue : Text) (config : ConsumerConfig) (o : Option (Option Topology)) (c : Consumer)
    (t : Topology)
    → consumer_of queue config o ≡ some c
    → c.topology ≡ some t
    → (o ≡ some (some t)) × (c.queue ≡ queue)
consumer_of-topology queue config none c t h k = ground arith
consumer_of-topology queue config (some none) c t h k = ground arith
consumer_of-topology queue config (some (some u)) c t h k =
    let same : built queue config (some u) ≡ c = ground arith in
    (ap some (ap (λ x. x.topology) same ∙ k), sym (ap (λ x. x.queue) same))

-- A consumer that NewConsumer makes with a topology declares, when all calls of the channel work, the
-- queue that it consumes from.
pub new_consumer-declares :
    (config : ConsumerConfig) (c : Consumer) (t : Topology)
    → new_consumer config ≡ some c
    → c.topology ≡ some t
    → ((declare (λ d. true) t).0 ≡ true)
      × Member (queue_declare c.queue t.durable t.auto_delete t.exclusive) (declare (λ d. true) t).1
unfolding new_consumer
new_consumer-declares config c t h k = elim (Bool-cases (is_empty (trim_space config.queue))) [
  | inl e ↦ absurd (ground arith)
  | inr e ↦
      let name = trim_space config.queue in
      let (found, same) =
        consumer_of-topology name config (consumer_topology name config.topology) c t (rw e at h)
          k in
      let (own, valid) = consumer_topology-same name config.topology t found in
      let made = declares_queue t name own (trim_space_idem config.queue) e valid in rw same made
]
