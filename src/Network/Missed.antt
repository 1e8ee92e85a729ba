-- ===== src/Network/Missed.antt =====
-- Packets of proj2/xt_cs421net.c that are not handed over: the work item is queued once for several.
use cmsc421_os.Prelude.{
  ◌≡◌, ◌<◌, refl, arith, true, false, [], ◌∷◌, ◌++◌, length, drop, length-append,
}
use cmsc421_os.Network.{
  Net, cs421net_enable, get_oldest, cs421net_get_data, Skb, hdr_len, filter_tg, reinit_retrieved,
  drop_oldest, sleeping, System, work_begin, work_wake, work_end, handle,
}
use cmsc421_os.Network.Steps.{
  Log, Step, arrive, begin, take_packet, read, wake, end, Steps, finished, more, start, empty_log,
}

-- The filter takes the packet.
pub record Taken (p : Skb) : Type 0 where
  pub tcp : p.is_tcp ≡ true
  pub payload : hdr_len p < length p.bytes
  pub node : p.has_node ≡ true
  pub data_ : p.has_data ≡ true

filter-Taken :
    (p : Skb) (n : Net)
    → n.enabled ≡ true
    → Taken p
    → filter_tg p n
      ≡ record n { packets = n.packets ++ drop (hdr_len p) p.bytes ∷ []; queued = true }
unfolding filter_tg
filter-Taken p n on t = ground (arith, t.tcp, t.payload, t.node, t.data_)

arrives :
    (p : Skb) (s : System) (l : Log)
    → s.net.enabled ≡ true
    → Taken p
    → Step s l
        (record s {
          net = record s.net {
            packets = s.net.packets ++ drop (hdr_len p) p.bytes ∷ [];
            queued = true;
          };
        })
        (record l { arrived = l.arrived ++ drop (hdr_len p) p.bytes ∷ [] })
arrives p s l on t = rw (filter-Taken p s.net on t) at (
    arrive {s = s} {l = l} p (
      rw (filter-Taken p s.net on t)
        (omega (arith, length-append {0} s.net.packets (drop (hdr_len p) p.bytes ∷ [])))))

-- Two packets that arrive before the worker begins raise one interrupt: once the first is dealt with, the
-- second waits in the list, and nothing is queued and nobody is woken for it.
pub two_arrivals :
    (p q : Skb)
    → Taken p
    → Taken q
    → (s : System) × (l : Log) × Steps start empty_log s l
      × (s.net.packets ≡ drop (hdr_len q) q.bytes ∷ [])
      × (s.net.queued ≡ false)
      × (s.worker ≡ sleeping)
      × (s.irqs ≡ 0)
unfolding cs421net_enable handle cs421net_get_data get_oldest work_begin work_wake work_end
    reinit_retrieved drop_oldest
two_arrivals p q tp tq = (
  _,
  _,
  more (arrives p start empty_log refl tp) (
      more (arrives q _ _ refl tq) (
        more (begin refl refl) (
          more (take_packet (omega arith) refl)
            (more (read refl) (more (wake refl (omega arith)) (more (end refl refl) finished)))))),
  refl,
  refl,
  refl,
  refl,
)
