-- ===== src/Network/Tests.antt =====
-- The theorems about proj2/xt_cs421net.c at concrete packets.
use cmsc421_os.Prelude.{◌≡◌, refl, true, false, [], ◌∷◌, ◌++◌, arith, replicate}
use cmsc421_os.CString.{codes}
use cmsc421_os.Network.{Skb, System, sleeping, filter_tg, cs421net_enable}
use cmsc421_os.Network.Steps.{Step, arrive, finished, Steps, Log, start, empty_log}
use cmsc421_os.Network.Queue.{Queue, pending, Step-Queue}
use cmsc421_os.Network.Missed.{Taken, two_arrivals}

abbrev packet : Skb
packet = record {
  is_tcp = true;
  bytes = replicate 40 0 ++ codes "3210";
  transport_offset = 20;
  tcp_hdrlen = 20;
  has_node = true;
  has_data = true;
}

packet-Taken : Taken packet
packet-Taken = record { tcp = refl; payload = omega arith; node = refl; data_ = refl }

run_of_two :
    (s : System) × (l : Log) × Steps start empty_log s l
    × (s.net.packets ≡ codes "3210" ∷ [])
    × (s.net.queued ≡ false)
    × (s.worker ≡ sleeping)
    × (s.irqs ≡ 0)
run_of_two = two_arrivals packet packet packet-Taken packet-Taken

abbrev arrived_one : Log
arrived_one = record { arrived = codes "3210" ∷ []; delivered = []; failed = 0 }

abbrev one_packet : System
one_packet = record start { net = filter_tg packet start.net }

arrives : Step start empty_log one_packet arrived_one
unfolding filter_tg cs421net_enable
arrives = arrive packet refl

Step-Queue_example : Queue (pending start) empty_log (pending one_packet) arrived_one
Step-Queue_example = Step-Queue finished arrives
