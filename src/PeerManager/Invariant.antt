-- ===== src/PeerManager/Invariant.antt =====
-- peer_manager.rs: the invariant that every message keeps.
use gwyh.Base.{◌≡◌, refl, true, Option, some, List, ℕ_discrete, is_some, arith}
use gwyh.Base.Dict.{
  Dict, lookup, contains_key, Distinct, lookup-insert, lookup-remove, insert-Distinct,
  remove-Distinct,
}
use gwyh.Base.Dict
use gwyh.Base.Set
use gwyh.Base.Set.{contains-insert, contains-remove}
use gwyh.External.{Uuid}
use gwyh.Peer.{Peer}
use gwyh.Actor.{Delayed, Interval}
use gwyh.NodeInfo.{NodeInfo}
use gwyh.PeerManager.State.{PeerManager, new}

pub record Holds (known : Dict Uuid Peer) (subscribers : List Uuid) (watchdogs : Dict Uuid Delayed)
    (heartbeat : Option Interval) : Type 0 where
  pub distinct : Distinct ℕ_discrete known
  pub keyed : (id : Uuid) (p : Peer) → lookup ℕ_discrete id known ≡ some p → p.id ≡ id
  pub subscribers_known :
      (id : Uuid)
      → Set.contains ℕ_discrete id subscribers ≡ true
      → contains_key ℕ_discrete id known ≡ true
  pub watchdogs_known :
      (id : Uuid)
      → contains_key ℕ_discrete id watchdogs ≡ true
      → contains_key ℕ_discrete id known ≡ true
  pub beating :
      (id : Uuid) → Set.contains ℕ_discrete id subscribers ≡ true → is_some heartbeat ≡ true

abbrev pub Inv : PeerManager → Type 0
Inv m = Holds m.known m.subscribers m.heartbeat_watchdogs m.heartbeat

pub new-Inv : (nodeinfo : NodeInfo) → Inv (new nodeinfo)
unfolding new lookup Set.contains
new-Inv nodeinfo = record {
  distinct = tt;
  keyed = λ id p e. cc;
  subscribers_known = λ id e. cc;
  watchdogs_known = λ id e. cc;
  beating = λ id e. cc;
}

module _ {known : Dict Uuid Peer} {subscribers : List Uuid} {watchdogs : Dict Uuid Delayed}
    {heartbeat : Option Interval} (v : Holds known subscribers watchdogs heartbeat) where
  pub Holds-insert :
      (id : Uuid) (p : Peer)
      → p.id ≡ id
      → Holds (Dict.insert ℕ_discrete id p known) subscribers watchdogs heartbeat
  Holds-insert id p e = record {
    distinct = insert-Distinct ℕ_discrete id p known v.distinct;
    keyed = λ j q h. ground (arith, lookup-insert ℕ_discrete id j p known, v.keyed j q);
    subscribers_known =
        λ j h. ground (arith, lookup-insert ℕ_discrete id j p known, v.subscribers_known j);
    watchdogs_known =
        λ j h. ground (arith, lookup-insert ℕ_discrete id j p known, v.watchdogs_known j);
    beating = v.beating;
  }

  pub Holds-remove :
      (id : Uuid)
      → Holds
          (Dict.remove ℕ_discrete id known)
          (Set.remove ℕ_discrete id subscribers)
          (Dict.remove ℕ_discrete id watchdogs)
          heartbeat
  Holds-remove id = record {
    distinct = remove-Distinct ℕ_discrete id known v.distinct;
    keyed = λ j q h. ground (arith, lookup-remove ℕ_discrete id j known, v.keyed j q);
    subscribers_known = λ j h. ground (
      arith,
      lookup-remove ℕ_discrete id j known,
      contains-remove ℕ_discrete id j subscribers,
      v.subscribers_known j,
    );
    watchdogs_known = λ j h. ground (
      arith,
      lookup-remove ℕ_discrete id j known,
      lookup-remove ℕ_discrete id j watchdogs,
      v.watchdogs_known j,
    );
    beating = λ j h. ground (arith, contains-remove ℕ_discrete id j subscribers, v.beating j);
  }

  pub Holds-unsubscribe :
      (id : Uuid) → Holds known (Set.remove ℕ_discrete id subscribers) watchdogs heartbeat
  Holds-unsubscribe id = record {
    distinct = v.distinct;
    keyed = v.keyed;
    subscribers_known =
        λ j h. ground (arith, contains-remove ℕ_discrete id j subscribers, v.subscribers_known j);
    watchdogs_known = v.watchdogs_known;
    beating = λ j h. ground (arith, contains-remove ℕ_discrete id j subscribers, v.beating j);
  }

  pub Holds-subscribe :
      (id : Uuid) (beat : Interval)
      → contains_key ℕ_discrete id known ≡ true
      → Holds known (Set.insert ℕ_discrete id subscribers) watchdogs (some beat)
  Holds-subscribe id beat k = record {
    distinct = v.distinct;
    keyed = v.keyed;
    subscribers_known =
        λ j h. ground (arith, contains-insert ℕ_discrete id j subscribers, v.subscribers_known j);
    watchdogs_known = v.watchdogs_known;
    beating = λ j h. refl;
  }

  pub Holds-stop :
      (id : Uuid) → Holds known subscribers (Dict.remove ℕ_discrete id watchdogs) heartbeat
  Holds-stop id = record {
    distinct = v.distinct;
    keyed = v.keyed;
    subscribers_known = v.subscribers_known;
    watchdogs_known =
        λ j h. ground (arith, lookup-remove ℕ_discrete id j watchdogs, v.watchdogs_known j);
    beating = v.beating;
  }

  pub Holds-watch :
      (id : Uuid) (w : Delayed) (p : Peer)
      → lookup ℕ_discrete id known ≡ some p
      → Holds known subscribers (Dict.insert ℕ_discrete id w watchdogs) heartbeat
  Holds-watch id w p e = record {
    distinct = v.distinct;
    keyed = v.keyed;
    subscribers_known = v.subscribers_known;
    watchdogs_known =
        λ j h. ground (arith, lookup-insert ℕ_discrete id j w watchdogs, v.watchdogs_known j);
    beating = v.beating;
  }

  pub Holds-beat : (beat : Interval) → Holds known subscribers watchdogs (some beat)
  Holds-beat beat = record {
    distinct = v.distinct;
    keyed = v.keyed;
    subscribers_known = v.subscribers_known;
    watchdogs_known = v.watchdogs_known;
    beating = λ j h. refl;
  }
