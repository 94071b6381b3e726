-- ===== src/Tests/Queue.antt =====
-- Runs of the broker's client and of a consumer.
use be_pawfund.Prelude.{◌≡◌, ◌≢◌, refl, true, false, some, [], ◌∷◌, Member}
use be_pawfund.Prelude.Int.{pos}
use be_pawfund.Text.{codes, text_eq, trim_space, trim_left, trim_right, is_space}
use be_pawfund.Queue.{
  Topology, Consumer, ConsumerConfig, is_valid_topology, consumer_topology, new_consumer, declare,
  queue_declare,
}
use be_pawfund.Queue.Declared.{new_consumer-declares}
use be_pawfund.Queue.Client.{
  Client, opened, alive, dropped, watching, backing_off, stopped, signalled, close_connection, Step,
  Reach,
}
use be_pawfund.Queue.Client.Invariant.{IsSound, Reach-IsSound, Reach-nothing_left}
use be_pawfund.Queue.Client.Lost.{lost_before_watch}
use be_pawfund.Queue.Client.Recovery.{IsRecovered, IsRetrying, Outage, lost-IsRecovered}

-- The connection is lost before the loop has started.
abbrev lost_early : Client
lost_early = record opened { conn = dropped; live = 0 }

abbrev given_up : Client
given_up = record lost_early { loop = stopped }

loses : Reach opened lost_early
loses = Reach.next Reach.here (Step.lose refl)

gives_up : Reach lost_early given_up
gives_up = Reach.next Reach.here (Step.arm refl)

Reach-IsSound_example : IsSound lost_early
Reach-IsSound_example = Reach-IsSound loses

lost_before_watch_example : given_up.conn ≢ alive
lost_before_watch_example = lost_before_watch refl refl gives_up

abbrev watched : Client
watched = record opened { loop = watching; subs = false ∷ []; conn = dropped; live = 0 }

-- Two dials fail.
abbrev retrying : Client
retrying = record watched { loop = backing_off 4 }

fails_twice : Outage watched retrying
fails_twice =
    Outage.goes_on
      (Outage.goes_on
        (Outage.goes_on
          (Outage.goes_on
            (Outage.goes_on Outage.begins (Step.see_close refl)
              (record { still_open = refl; undialed = refl }))
            (Step.timer 1 refl) (record { still_open = refl; undialed = refl }))
          (Step.dial_fails 1 refl) (record { still_open = refl; undialed = refl }))
        (Step.timer 2 refl) (record { still_open = refl; undialed = refl }))
      (Step.dial_fails 2 refl) (record { still_open = refl; undialed = refl })

lost-IsRecovered_example : IsRetrying retrying.loop × ((e : Client) × IsRecovered retrying e)
lost-IsRecovered_example = lost-IsRecovered {c = watched} refl refl refl fails_twice

-- A client that is closed after its loop has started.
abbrev closing_down : Client
closing_down = close_connection alive (record opened { loop = watching; closing = signalled })

closes : Reach opened (record closing_down { loop = stopped })
closes =
    Reach.next
      (Reach.next
        (Reach.next (Reach.next (Reach.next Reach.here (Step.arm refl)) (Step.mark refl))
          (Step.signal refl))
        (Step.close refl))
      (Step.see_close refl)

Reach-nothing_left_example : (record closing_down { loop = stopped }).live ≡ 0
Reach-nothing_left_example = Reach-nothing_left closes refl refl

abbrev topology : Topology
topology = record {
  exchange = codes "x";
  exchange_kind = [];
  queue = codes "q";
  binding_key = codes "k";
  durable = true;
  exclusive = false;
  auto_delete = false;
}

abbrev consumer_config : ConsumerConfig
consumer_config = record {
  queue = codes " q";
  topology = some topology;
  tag = [];
  prefetch = pos 0;
}

abbrev consumer : Consumer
consumer = record { queue = codes "q"; topology = some topology; tag = []; prefetch = pos 1 }

makes : new_consumer consumer_config ≡ some consumer
unfolding new_consumer consumer_topology is_valid_topology trim_space trim_left trim_right is_space
    text_eq
makes = refl

new_consumer-declares_example :
    ((declare (λ d. true) topology).0 ≡ true)
    × Member (queue_declare (codes "q") true false false) (declare (λ d. true) topology).1
new_consumer-declares_example = new_consumer-declares consumer_config consumer topology makes refl
