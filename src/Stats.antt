-- ===== src/Stats.antt =====
-- src/server.rs: `stats::Counters`. The counters are u64 and wrap around.
pub mod Status
pub mod Http
pub mod Access
use psrt.Prelude.{ℕ, ◌+◌}
use psrt.Wire.{u64}

pub record Counters : Type 0 where
  pub c_sub_ops : ℕ
  pub c_pub_messages : ℕ
  pub c_pub_bytes : ℕ
  pub c_sent_messages : ℕ
  pub c_sent_bytes : ℕ
  pub c_sent_latency : ℕ

unfoldable pub count_sub_ops : Counters → Counters
count_sub_ops c = record c { c_sub_ops = u64 (c.c_sub_ops + 1) }

unfoldable pub count_pub_bytes : ℕ → Counters → Counters
count_pub_bytes size c = record c {
  c_pub_messages = u64 (c.c_pub_messages + 1);
  c_pub_bytes = u64 (c.c_pub_bytes + size);
}

unfoldable pub count_sent_bytes : ℕ → ℕ → Counters → Counters
count_sent_bytes size latency c = record c {
  c_sent_messages = u64 (c.c_sent_messages + 1);
  c_sent_bytes = u64 (c.c_sent_bytes + size);
  c_sent_latency = u64 (c.c_sent_latency + latency);
}
