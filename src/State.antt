-- ===== src/State.antt =====
-- typedef.h and global.h: the options and the global variables that the threads share. A `long` that
-- is counted or subtracted is an integer, stored through `i32`; an address, a flag that is only
-- toggled and an id of 16 bits are natural numbers.
use aping.Base.{ℕ, List, [], Bool, false}
use aping.Base.Int.{ℤ, pos, negsuc}

-- `OPT`. A bit is read only as a condition.
pub record Options : Type 0 where
  pub ip_src : Bool
  pub ip_dst : Bool
  pub ip_tos : Bool
  pub ip_ttl : Bool
  pub ip_ramp : Bool
  pub ip_id : Bool
  pub ip_id_incr : Bool
  pub ip_id_rand : Bool
  pub rroute : Bool
  pub bcast : Bool
  pub icmp_type : Bool
  pub icmp_code : Bool
  pub ifname : Bool
  pub wait : Bool
  pub count : Bool
  pub pattern : Bool
  pub numeric : Bool
  pub droute : Bool
  pub so_debug : Bool
  pub dfrag : Bool
  pub sniff : Bool
  pub size : Bool
  pub promisc : Bool

-- `TIME`: a pair of `long`, read as seconds and microseconds or as milliseconds and a fraction.
pub record Time : Type 0 where
  pub whole : ℤ
  pub part : ℤ

pub record Globals : Type 0 where
  pub options : Options
  pub ip_id : ℤ
  pub ip_src : ℕ
  pub ip_dst : ℕ
  pub ip_tos : ℤ
  pub ip_ttl : ℤ
  pub ip_size : ℤ
  pub icmp_size : ℤ
  pub icmp_type : ℤ
  pub icmp_code : ℤ
  pub mac_inspection : ℕ
  pub n_sent : ℤ
  pub n_recv : ℤ
  pub n_tome : ℤ
  pub n_pause : ℕ
  pub myid : ℕ
  pub tau : ℤ
  pub detail : ℕ
  pub count : ℤ
  pub offset_dl : ℕ
  pub last_route : ℕ
  pub rtt : Time
  pub last_rtt : Time
  pub last_ack : Time
  pub last_sent : Time
  pub last_tstamp : ℤ
  pub curr_tstamp : ℤ
  pub rtt_min : ℤ
  pub rtt_max : ℤ
  pub rtt_mean : ℤ
  pub rtt_sqre : ℤ
  pub jitter : ℤ
  pub waiting_time : ℤ
  pub traffic_tos : ℕ
  pub endian_bug : ℕ
  pub diff_ipid : ℕ
  pub last_seq : ℤ
  pub last_id : ℤ
  pub curr_id : ℤ
  pub diff_id : ℤ
  pub out_burst : ℤ
  pub max_burst : ℤ
  pub mean_burst : ℤ
  pub pending_time : ℤ
  pub real_tau : ℤ
  pub slow_start : ℕ
  pub rand_ipid : ℤ
  pub ipid_failure : ℕ
  pub pattern : List ℕ

abbrev pub no_options : Options
no_options = record {
  ip_src = false;
  ip_dst = false;
  ip_tos = false;
  ip_ttl = false;
  ip_ramp = false;
  ip_id = false;
  ip_id_incr = false;
  ip_id_rand = false;
  rroute = false;
  bcast = false;
  icmp_type = false;
  icmp_code = false;
  ifname = false;
  wait = false;
  count = false;
  pattern = false;
  numeric = false;
  droute = false;
  so_debug = false;
  dfrag = false;
  sniff = false;
  size = false;
  promisc = false;
}

abbrev time_zero : Time
time_zero = record { whole = pos 0; part = pos 0 }

-- The values that the program starts with.
abbrev pub initial : Globals
initial = record {
  options = no_options;
  ip_id = pos 0;
  ip_src = 0;
  ip_dst = 0;
  ip_tos = pos 0;
  ip_ttl = pos 255;
  ip_size = pos 0;
  icmp_size = pos 0;
  icmp_type = pos 8;
  icmp_code = pos 0;
  mac_inspection = 0;
  n_sent = pos 0;
  n_recv = pos 0;
  n_tome = pos 0;
  n_pause = 0;
  myid = 0;
  tau = pos 1000;
  detail = 1;
  count = pos 0;
  offset_dl = 0;
  last_route = 0;
  rtt = time_zero;
  last_rtt = time_zero;
  last_ack = time_zero;
  last_sent = time_zero;
  last_tstamp = pos 0;
  curr_tstamp = pos 0;
  rtt_min = pos 99999999;
  rtt_max = pos 0;
  rtt_mean = pos 0;
  rtt_sqre = pos 0;
  jitter = pos 0;
  waiting_time = pos 0;
  traffic_tos = 0;
  endian_bug = 0;
  diff_ipid = 0;
  last_seq = negsuc 0;
  last_id = negsuc 0;
  curr_id = pos 0;
  diff_id = pos 0;
  out_burst = pos 0;
  max_burst = pos 0;
  mean_burst = pos 0;
  pending_time = pos 0;
  real_tau = pos 0;
  slow_start = 1;
  rand_ipid = pos 0;
  ipid_failure = 0;
  pattern = [];
}
