-- ===== src/Queue.antt =====
-- internal/infra/queue: the broker's client, the declaration of queues, publishing and consuming. The
-- AMQP library is a parameter: what its calls answer.
pub mod Client
pub mod Declared
use be_pawfund.Prelude.{
  ℕ, Bool, true, false, not, ◌&&◌, ◌||◌, Option, none, some, List, [], ◌∷◌, ◌++◌, Result, ok, err,
  nat_eq, ltb, if◌then◌else◌,
}
use be_pawfund.Prelude.Int.{ℤ, pos, int_lt}
use be_pawfund.Text.{Text, codes, is_empty, text_eq, trim_space}

pub record Topology : Type 0 where
  pub exchange : Text
  pub exchange_kind : Text
  pub queue : Text
  pub binding_key : Text
  pub durable : Bool
  pub exclusive : Bool
  pub auto_delete : Bool

-- validateTopology
unfoldable pub is_valid_topology : Topology → Bool
is_valid_topology t =
    not (is_empty (trim_space t.exchange) && is_empty (trim_space t.queue))
    && not (not (is_empty (trim_space t.queue)) && not t.durable && not t.exclusive)

-- The calls of Declare on its channel.
pub data Declaration : Type 0 where
  -- name, kind, durable, auto-delete
  exchange_declare : Text → Text → Bool → Bool → Declaration
  -- name, durable, auto-delete, exclusive
  queue_declare : Text → Bool → Bool → Bool → Declaration
  -- queue, key, exchange
  queue_bind : Text → Text → Text → Declaration

abbrev pub kind_of : Text → Text
kind_of exchange_kind =
    let kind = trim_space exchange_kind in if is_empty kind then codes "topic" else kind

-- The calls of Declare, in their order.
unfoldable pub declarations : Topology → List Declaration
declarations t =
    let exchange = trim_space t.exchange in
    let queue = trim_space t.queue in
    (if is_empty exchange
      then []
      else exchange_declare exchange (kind_of t.exchange_kind) t.durable t.auto_delete ∷ [])
    ++ (if is_empty queue then [] else queue_declare queue t.durable t.auto_delete t.exclusive ∷ [])
    ++ (if not (is_empty exchange) && not (is_empty queue)
        then queue_bind queue t.binding_key exchange ∷ []
        else [])

-- The calls that are made: up to the first that fails.
unfoldable pub run_declarations : (Declaration → Bool) → List Declaration → Bool × List Declaration
run_declarations works [] = (true, [])
run_declarations works (d ∷ ds) =
    let (done, made) = run_declarations works ds in
    if works d then (done, d ∷ made) else (false, d ∷ [])

-- Declare on a channel: whether it succeeds, and the calls that it made.
unfoldable pub declare : (Declaration → Bool) → Topology → Bool × List Declaration
declare works t =
    if is_valid_topology t then run_declarations works (declarations t) else (false, [])

-- DeclareOn; `opens` tells whether there is an open connection that opens a channel.
abbrev pub declare_on : Bool → (Declaration → Bool) → Topology → Bool × List Declaration
declare_on opens works t = if opens then declare works t else (false, [])

-- The queue of a consumer's topology, by its own trimmed one; none is an error.
abbrev pub matched_queue : Text → Text → Option Text
matched_queue queue_name topology_queue =
    if is_empty topology_queue
    then some queue_name
    else if text_eq topology_queue queue_name
    then some topology_queue
    else none

abbrev pub with_queue : Topology → Option Text → Option (Option Topology)
with_queue t none = none
with_queue t (some queue) =
    let matched = record t { queue = queue } in
    if is_valid_topology matched then some (some matched) else none

-- consumerTopology; an error is none.
unfoldable pub consumer_topology : Text → Option Topology → Option (Option Topology)
consumer_topology queue_name none = some none
consumer_topology queue_name (some t) = with_queue t (matched_queue queue_name (trim_space t.queue))

pub record ConsumerConfig : Type 0 where
  pub queue : Text
  pub topology : Option Topology
  pub tag : Text
  pub prefetch : ℤ

pub record Consumer : Type 0 where
  pub queue : Text
  pub topology : Option Topology
  pub tag : Text
  pub prefetch : ℤ

abbrev pub built : Text → ConsumerConfig → Option Topology → Consumer
built queue config topology = record {
  queue = queue;
  topology = topology;
  tag = trim_space config.tag;
  prefetch = if int_lt (pos 0) config.prefetch then config.prefetch else pos 1;
}

abbrev pub consumer_of : Text → ConsumerConfig → Option (Option Topology) → Option Consumer
consumer_of queue config none = none
consumer_of queue config (some topology) = some (built queue config topology)

-- NewConsumer with a client; an error is none.
unfoldable pub new_consumer : ConsumerConfig → Option Consumer
unfolding consumer_topology
new_consumer config =
    let queue = trim_space config.queue in
    if is_empty queue
    then none
    else consumer_of queue config (consumer_topology queue config.topology)

-- handleDelivery: what is done with a delivery after the handler's answer. The broker puts a message that
-- is not acknowledged with requeue back into the queue.
pub data Settlement : Type 0 where
  ack requeue : Settlement

abbrev pub settlement : {E A : Type 0} → Result E A → Settlement
settlement (ok a) = ack
settlement (err e) = requeue

-- An error of the AMQP library: ErrClosed, one with a code, or another.
pub data AmqpError : Type 0 where
  err_closed other_error : AmqpError
  with_code : ℕ → AmqpError

abbrev pub connection_forced : ℕ
connection_forced = 320

abbrev pub is_unavailable : Option AmqpError → Bool
is_unavailable none = false
is_unavailable (some err_closed) = true
is_unavailable (some other_error) = false
is_unavailable (some (with_code code)) = nat_eq code connection_forced

-- connectionUnavailable; `usable` tells whether there is a connection that is not closed.
unfoldable pub connection_unavailable : Bool → Option AmqpError → Bool
connection_unavailable usable error = if usable then is_unavailable error else true

pub record Message : Type 0 where
  pub exchange : Text
  pub routing_key : Text
  pub body : Option Text
  pub content_type : Text
  pub persistent : Bool

-- The publishing that goes to the broker: exchange, key, content type, body, persistence.
pub record Publishing : Type 0 where
  pub exchange : Text
  pub routing_key : Text
  pub content_type : Text
  pub body : Text
  pub persistent : Bool

-- How the steps of Publish on the connection end: there is one that opens a channel in confirm mode, the
-- publishing is sent, and the broker confirms it.
pub record Sending : Type 0 where
  pub opens : Bool
  pub sends : Bool
  pub confirms : Bool

abbrev pub publishing_of : Message → Text → Text → Publishing
publishing_of m key body =
    let content_type = trim_space m.content_type in
    record {
      exchange = trim_space m.exchange;
      routing_key = key;
      content_type =
          if is_empty content_type then codes "application/octet-stream" else content_type;
      body = body;
      persistent = m.persistent;
    }

abbrev pub send : Sending → Publishing → Bool × List Publishing
send how p =
    if not how.opens then (false, []) else if how.sends then (how.confirms, p ∷ []) else (false, [])

abbrev pub publish_body : Sending → Message → Option Text → Bool × List Publishing
publish_body how m none = (false, [])
publish_body how m (some body) =
    let key = trim_space m.routing_key in
    if is_empty key then (false, []) else send how (publishing_of m key body)

-- Publisher.Publish: whether it succeeds, and what it sends.
unfoldable pub publish_message : Sending → Message → Bool × List Publishing
publish_message how m = publish_body how m m.body
