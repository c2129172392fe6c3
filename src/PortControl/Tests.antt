-- ===== src/PortControl/Tests.antt =====
-- A request over IPv4 and the router's response to it.
use rigcontrol.Common.{◌≡◌, ◌⊎◌, arith, true, false, [], ◌∷◌, ◌++◌, Bytes, replicate}
use rigcontrol.PortControl.{
  htons, Packet, Mapping, inet, other_family, LastRequest, State, pcp_port, wanted, request_packet,
  request_mapping_ipv4, mapping_of, add_mapping, decode_packet,
}
use rigcontrol.PortControl.Response.{Accepted, Keeps, decode_packet_cases}
use rigcontrol.PortControl.Exchange.{response_to, GrantedFor, decode_packet-request_mapping_ipv4}

abbrev request : Mapping
request = wanted false (1 ∷ 2 ∷ 3 ∷ 4 ∷ 5 ∷ 6 ∷ 7 ∷ 8 ∷ 9 ∷ 10 ∷ 11 ∷ 12 ∷ [])

abbrev nothing_requested : LastRequest
nothing_requested = record {
  address = other_family;
  packet = request_packet [] [] request;
  time = 0;
  valid = false;
}

abbrev home : State
home = record {
  last_request_ipv4 = nothing_requested;
  last_request_ipv6 = nothing_requested;
  router4 = 10 ∷ 0 ∷ 0 ∷ 1 ∷ [];
  address4 = 10 ∷ 0 ∷ 0 ∷ 2 ∷ [];
  router6 = [];
  link_local6 = [];
  port_mappings4 = [];
  port_mappings6 = [];
  failures = [];
}

abbrev public_address : Bytes
public_address = replicate 10 0 ++ 255 ∷ 255 ∷ 1 ∷ 2 ∷ 3 ∷ 4 ∷ []

abbrev answer : Packet
answer = response_to (request_packet [] [] request) 8081 3600 public_address (replicate 16 0)

decode_packet_cases_example :
    (Accepted (λ a. true) answer 60 false (inet (htons pcp_port) (10 ∷ 0 ∷ 0 ∷ 1 ∷ [])) home
      × (decode_packet
            (λ a. true)
            answer
            60
            false
            (inet (htons pcp_port) (10 ∷ 0 ∷ 0 ∷ 1 ∷ []))
            5
            home
          ≡ add_mapping (mapping_of answer false 5) false home))
    ⊎ (¬ Accepted (λ a. true) answer 60 false (inet (htons pcp_port) (10 ∷ 0 ∷ 0 ∷ 1 ∷ [])) home
        × Keeps home (
            decode_packet
              (λ a. true)
              answer
              60
              false
              (inet (htons pcp_port) (10 ∷ 0 ∷ 0 ∷ 1 ∷ []))
              5
              home))
decode_packet_cases_example =
    decode_packet_cases (λ a. true) answer 60 false (inet (htons pcp_port) (10 ∷ 0 ∷ 0 ∷ 1 ∷ [])) 5
      home

decode_packet-request_mapping_ipv4_example :
    (granted : Mapping) × ((decode_packet
        (λ a. true)
        (response_to
          ((request_mapping_ipv4 request 60 3 home).0.last_request_ipv4.packet)
          8081
          3600
          public_address
          (replicate 16 0))
        60
        false
        (inet (htons pcp_port) home.router4)
        5
        ((request_mapping_ipv4 request 60 3 home).0)).port_mappings4
      ≡ home.port_mappings4 ++ granted ∷ [])
    × GrantedFor (λ a. true) 5 8081 3600 60 public_address (replicate 16 0) request granted
decode_packet-request_mapping_ipv4_example =
    decode_packet-request_mapping_ipv4 (λ a. true) request 60 3 5 home 8081 3600 60 public_address
      (replicate 16 0) (omega arith) (omega arith) (omega arith) (omega arith)
