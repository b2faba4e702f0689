-- ===== src/Examples/Scenario.antt =====
-- The broker's range of the examples, 242.0.0.0/28, and the settings of a cluster.
use cluster_fabric_operator.Base.{◌≡◌, ◌<◌, refl, arith, Text, codes, [], some, false}
use cluster_fabric_operator.Net.{
  Ip, IpNet, value, ip_of, mask_ip, parse_cidr, parse_ipv4, parse_octet, parse_dot_octet,
  parse_prefix, prefix_of,
}
use cluster_fabric_operator.Net.Decimal.{dtoi, digits_from}
use cluster_fabric_operator.Globalnet.{Config}

abbrev pub range_text : Text
range_text = codes "242.0.0.0/28"

abbrev pub range_ip : Ip
range_ip = record { o0 = 242; o1 = 0; o2 = 0; o3 = 0 }

abbrev pub range_net : IpNet
range_net = record { ip = range_ip; ones = 28 }

pub parse_range : parse_cidr range_text ≡ some (range_ip, range_net)
unfolding parse_cidr parse_ipv4 parse_octet parse_dot_octet parse_prefix prefix_of mask_ip ip_of
    value dtoi digits_from
parse_range = refl

abbrev pub west : Config
west = record {
  cluster_cidr = [];
  cluster_id = codes "west";
  globalnet_cidr = [];
  service_cidr = [];
  globalnet_cluster_size = 0;
  cluster_cidr_auto_detected = false;
  service_cidr_auto_detected = false;
}

pub above : 0 < value range_ip
unfolding value
above = omega arith
