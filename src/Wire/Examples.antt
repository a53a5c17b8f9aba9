-- ===== src/Wire/Examples.antt =====
-- The theorem on the wire at a standing train.
use ovlive_platform.Prelude.{ℕ, ◌≡◌, ◌↔◌, true, false, none, some, codes}
use ovlive_platform.Numbers.{whole_degrees}
use ovlive_platform.VehicleLive.Defs.{merge_move}
use ovlive_platform.Wire.Defs.{to_vehicle, WireProgress, WireVehicle, to_move, or_default}
use ovlive_platform.Wire.Coherence.{read_then_merge}

abbrev standing_train : WireProgress ℕ
standing_train = record {
  id = codes "IFF:1";
  lat = 52;
  lon = 5;
  bearing = none;
  speed_known = some true;
  speed_kmh = some 0;
  delay_seconds = none;
  delay_known = some false;
  at_stop = some true;
  current_stop_id = none;
  schedule_positioned = none;
}

abbrev train : WireVehicle ℕ
train = record {
  progress = record standing_train { speed_known = none };
  dataowner = codes "IFF";
  vehicle_number = codes "1";
  line_public_number = none;
  vehicle_type = some 4;
  operator_name = some (codes "NS");
  destination = none;
  block_code = none;
  journey_number = none;
  line_color = none;
  line_text_color = none;
}

read_then_merge_example :
    (merge_move (to_move whole_degrees standing_train) (to_vehicle whole_degrees train)
      ≡ to_vehicle whole_degrees (record train { progress = standing_train }))
    × (((to_vehicle whole_degrees train).speed_kmh ≡ none)
        ↔ (or_default false train.progress.speed_known ≡ false))
    × (((to_move whole_degrees standing_train).speed_kmh ≡ none)
        ↔ (or_default false standing_train.speed_known ≡ false))
read_then_merge_example = read_then_merge whole_degrees train standing_train
