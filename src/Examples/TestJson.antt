-- ===== src/Examples/TestJson.antt =====
-- A JSON library with the laws: it writes numbers and lengths as single codes.
use cluster_fabric_operator.Base.{
  ℕ, zero, suc, ◌≡◌, refl, true, false, Text, codes, text_eq, length, List, [], ◌∷◌, ◌++◌, Option,
  none, some, if◌then◌else◌,
}
use mathlib.Core.List.{append_assoc}
use cluster_fabric_operator.Broker.GlobalnetMap.{ClusterInfo, Json}
use cluster_fabric_operator.Broker.Stored.{JsonLaws}
use cluster_fabric_operator.Net.{◌>>=◌}

-- `n` codes, and the rest.
abbrev read_codes : ℕ → Text → Option (Text × Text)
read_codes zero s = some ([], s)
read_codes (suc n) [] = none
read_codes (suc n) (c ∷ s) = do (t, rest) ← read_codes n s; some (c ∷ t, rest)

abbrev write_text : Text → Text
write_text t = length t ∷ t

abbrev read_text : Text → Option (Text × Text)
read_text [] = none
read_text (n ∷ s) = read_codes n s

abbrev write_texts : List Text → Text
write_texts [] = []
write_texts (t ∷ ts) = write_text t ++ write_texts ts

abbrev read_texts : ℕ → Text → Option (List Text × Text)
read_texts zero s = some ([], s)
read_texts (suc n) s = do
  (t, rest) ← read_text s
  (ts, rest') ← read_texts n rest
  some (t ∷ ts, rest')

abbrev write_clusters : List ClusterInfo → Text
write_clusters [] = []
write_clusters (c ∷ cs) =
    write_text c.cluster_id
    ++ (length c.global_cidr ∷ (write_texts c.global_cidr ++ write_clusters cs))

abbrev read_cidrs : Text → Option (List Text × Text)
read_cidrs [] = none
read_cidrs (n ∷ s) = read_texts n s

abbrev read_clusters : ℕ → Text → Option (List ClusterInfo)
read_clusters zero s = some []
read_clusters (suc n) s = do
  (id, rest) ← read_text s
  (ts, rest') ← read_cidrs rest
  cs ← read_clusters n rest'
  some (record { cluster_id = id; global_cidr = ts } ∷ cs)

-- The texts of the program begin with other codes than 0.
abbrev parse_list : Text → Option (List ClusterInfo)
parse_list [] = none
parse_list (zero ∷ []) = none
parse_list (zero ∷ n ∷ s) = read_clusters n s
parse_list (suc c ∷ s) = some []

abbrev parse_number : Text → Option ℕ
parse_number (n ∷ []) = some n
parse_number [] = none
parse_number (n ∷ m ∷ s) = none

abbrev pub test_json : Json
test_json = record {
  parse_bool = λ t.
      if text_eq t (codes "true")
      then some true
      else if text_eq t (codes "false")
      then some false
      else none;
  parse_uint = parse_number;
  parse_string = λ t. some t;
  parse_clusters = parse_list;
  print_uint = λ n. n ∷ [];
  marshal_string = λ t. t;
  marshal_clusters = λ cs. 0 ∷ length cs ∷ write_clusters cs;
}

read_codes-append : (t rest : Text) → read_codes (length t) (t ++ rest) ≡ some (t, rest)
read_codes-append [] rest = refl
read_codes-append (c ∷ t) rest = rw (read_codes-append t rest) refl

read_texts-append :
    (ts : List Text) (rest : Text)
    → read_texts (length ts) (write_texts ts ++ rest) ≡ some (ts, rest)
read_texts-append [] rest = refl
read_texts-append (t ∷ ts) rest =
    rw
      (
        append_assoc t (write_texts ts) rest,
        read_codes-append t (write_texts ts ++ rest),
        read_texts-append ts rest,
      )
      refl

read_clusters-write :
    (cs : List ClusterInfo) → read_clusters (length cs) (write_clusters cs) ≡ some cs
read_clusters-write [] = refl
read_clusters-write (c ∷ cs) =
    rw
      (
        read_codes-append c.cluster_id
            (length c.global_cidr ∷ (write_texts c.global_cidr ++ write_clusters cs)),
        read_texts-append c.global_cidr (write_clusters cs),
        read_clusters-write cs,
      )
      refl

pub test_json_laws : JsonLaws test_json
unfolding text_eq
test_json_laws = record {
  bool_true = refl;
  bool_false = refl;
  no_clusters = refl;
  uint = λ n. refl;
  string = λ t. refl;
  clusters = read_clusters-write;
}
