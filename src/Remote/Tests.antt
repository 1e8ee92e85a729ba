-- ===== src/Remote/Tests.antt =====
-- A run of proj2/xt_cs421net.c and proj2/mastermind2.c together, and the theorems at it.
use cmsc421_os.Prelude.{
  ℕ, ◌+◌, ◌%◌, ◌^◌, ◌≡◌, refl, arith, true, none, some, List, [], ◌∷◌, ◌++◌, length, replicate,
}
use cmsc421_os.Prelude.Int.{pos}
use cmsc421_os.CString.{codes}
use cmsc421_os.Network.{
  Skb, System, filter_tg, work_begin, handle, cs421net_enable, cs421net_get_data, get_oldest,
}
use cmsc421_os.Network.Steps.{arrive, begin, take_packet, Log, start, empty_log}
use cmsc421_os.Network.Delivery.{HandedOver}
use cmsc421_os.Mastermind2.State.{Driver, loaded}
use cmsc421_os.Mastermind2.Network.{cs421net_bottom_body, valid_code}
use cmsc421_os.Mastermind2.System.{Section, step, completes}
use cmsc421_os.Remote.{device, handler, Joints, finished, more}
use cmsc421_os.Remote.Counted.{packets, counted, joint_run, all_counted}

abbrev packet : Skb
packet = record {
  is_tcp = true;
  bytes = replicate 40 0 ++ codes "3210";
  transport_offset = 20;
  tcp_hdrlen = 20;
  has_node = true;
  has_data = true;
}

abbrev fresh : Driver
fresh = loaded true

abbrev held : System
held = work_begin true (record start { net = filter_tg packet start.net })

abbrev pointed_at : System
pointed_at = (handle held).1

abbrev handed_over : System
handed_over = record pointed_at { reading = none }

abbrev handed_log : Log
handed_log = record { arrived = codes "3210" ∷ []; delivered = codes "3210" ∷ []; failed = 0 }

abbrev changed : Driver
changed = record fresh { target_code = 3 ∷ 2 ∷ 1 ∷ 0 ∷ []; times_target_code_changed = 1 }

test_together : Joints start empty_log fresh handed_over handed_log changed
unfolding filter_tg cs421net_enable work_begin handle cs421net_get_data get_oldest step
    cs421net_bottom_body valid_code
test_together = more (device (arrive packet refl) (λ n. n)) (
    more (device (begin refl refl) (λ n. n)) (
      more (device (take_packet (omega arith) refl) (λ n. n))
        (more (handler (pos 53) refl) finished)))

joint_run_example :
    (ss : List Section) × (completes ss fresh ≡ some changed)
    × HandedOver handed_log.arrived (packets ss) handed_log.failed
joint_run_example = joint_run fresh test_together

all_counted_example :
    (counted changed % 2 ^ 32 ≡ (counted fresh + length handed_log.delivered) % 2 ^ 32)
    × (first rest : List (List ℕ)) × (handed_log.arrived ≡ first ++ rest)
    × (length first ≡ length handed_log.delivered + handed_log.failed)
all_counted_example = all_counted fresh test_together
