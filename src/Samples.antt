-- ===== src/Samples.antt =====
-- Data that the examples of the other modules share: coordinates are whole degrees.
use ovlive_platform.Prelude.{ℕ, true, false, none, some, [], codes, Text, ◌+◌, ◌∷◌}
use ovlive_platform.Prelude.Int.{pos}
use ovlive_platform.Types.{
  BBox, FilterState, Vehicle, MoveDelta, NormalizedUpdate, TripStop, VehicleSummary,
}

abbrev pub utrecht : BBox ℕ
utrecht = record { min_lat = 52; min_lon = 5; max_lat = 53; max_lon = 6 }

abbrev pub all_types : FilterState
all_types = record { types = []; owners = []; search = [] }

abbrev pub bus_1 : Vehicle ℕ
bus_1 = record {
  id = codes "CXX:1";
  dataowner = codes "CXX";
  vehicle_number = codes "1";
  line = codes "50";
  type = 0;
  operator = codes "Connexxion";
  lat = 52;
  lon = 5;
  bearing = none;
  speed_kmh = some 30;
  delay = pos 60;
  delay_known = true;
  destination = codes "Wageningen";
  block = [];
  journey = codes "1001";
  at_stop = false;
  current_stop_id = [];
  schedule_positioned = false;
  line_color = [];
  line_text_color = [];
}

-- The same vehicle on its next journey.
abbrev pub bus_1_back : Vehicle ℕ
bus_1_back = record bus_1 { journey = codes "1002"; lon = 6 }

abbrev pub tram_2 : Vehicle ℕ
tram_2 = record bus_1 {
  id = codes "GVB:2";
  dataowner = codes "GVB";
  operator = codes "GVB";
  type = 1;
}

abbrev pub move_1 : MoveDelta ℕ
move_1 = record {
  id = codes "CXX:1";
  lat = 53;
  lon = 6;
  bearing = none;
  speed_kmh = none;
  delay = pos 0;
  delay_known = true;
  at_stop = true;
  current_stop_id = codes "s2";
  schedule_positioned = true;
}

abbrev pub snapshot : NormalizedUpdate ℕ
snapshot = record { entered = bus_1 ∷ tram_2 ∷ []; moved = []; left = []; is_snapshot = true }

abbrev pub delta : NormalizedUpdate ℕ
delta = record { entered = []; moved = move_1 ∷ []; left = codes "GVB:2" ∷ []; is_snapshot = false }

abbrev pub stop_at : Text → ℕ → ℕ → TripStop ℕ
stop_at name seq at = record {
  stop_id = codes "s";
  name = name;
  lat = 52;
  lon = 5 + seq;
  stop_sequence = seq;
  scheduled_arrival = pos at;
  scheduled_departure = pos at;
}

abbrev pub first_stop : TripStop ℕ
first_stop = stop_at (codes "Utrecht, Neude") 0 36000

abbrev pub second_stop : TripStop ℕ
second_stop = stop_at (codes "Utrecht CS") 1 36600

abbrev pub bus_summary : VehicleSummary ℕ
bus_summary = record {
  id = bus_1.id;
  dataowner = codes "CXX";
  vehicle_number = codes "1";
  line_public_number = some (codes "50");
  line_planning_number = none;
  vehicle_type = codes "BUS";
  operator_name = none;
  lat = 52;
  lon = 5;
  bearing = none;
  speed_kmh = none;
  delay_seconds = pos 0;
  delay_known = true;
  destination = none;
  block_code = none;
  journey_number = none;
  at_stop = false;
  current_stop_id = none;
  schedule_positioned = false;
  line_color = none;
  line_text_color = none;
  last_update = [];
}
