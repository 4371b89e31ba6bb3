-- ===== src/Metrics.antt =====
-- src/metrics.rs: the gauges that one statistics record is sent as. A failed send is ignored there,
-- so a send is a change of the world alone.
use Prim.Native.String.{◌++◌}
use load_test_server.Prelude.{String, List, [], ◌∷◌}
use load_test_server.External.Types.{VideoReceiverStats, VideoSenderStats}
use load_test_server.External.Platform.{Platform}

-- name, value and tags of one call of `METRICS.gauge`
pub record Gauge : Type 0 where
  pub name : String
  pub value : String
  pub tags : List String

abbrev tags_of : String → String → String → List String
tags_of pc_id sess_id ssrc = ("pc_id:" ++ pc_id) ∷ ("sess_id:" ++ sess_id) ∷ ("ssrc: " ++ ssrc) ∷ []

abbrev gauges : List String → List (String × String) → List Gauge
gauges tags [] = []
gauges tags ((name, value) ∷ rest) =
    record { name = name; value = value; tags = tags } ∷ gauges tags rest

module _ ⦃P : Platform⦄ where
  open P use {World, Number, number_to_string, uint_to_string, gauge}

  unfoldable pub rx_gauges : VideoReceiverStats Number → String → String → List Gauge
  rx_gauges stat pc_id sess_id = gauges (tags_of pc_id sess_id (number_to_string stat.ssrc)) (
      ("pc.video.rx.packets_received", number_to_string stat.packets_received)
      ∷ ("pc.video.rx.packets_lost", number_to_string stat.packets_lost)
      ∷ ("pc.video.rx.packets_repaired", number_to_string stat.packets_repaired)
      ∷ ("pc.video.rx.bytes_received", uint_to_string stat.bytes_received)
      ∷ ("pc.video.rx.frames_decoded", number_to_string stat.frames_decoded)
      ∷ ("pc.video.rx.keyframes_decoded", number_to_string stat.keyframes_decoded)
      ∷ ("pc.video.rx.frames_dropped", number_to_string stat.frames_dropped)
      ∷ ("pc.video.rx.total_decode_time", number_to_string stat.total_decode_time)
      ∷ ("pc.video.rx.frame_width", number_to_string stat.frame_width)
      ∷ ("pc.video.rx.frame_height", number_to_string stat.frame_height)
      ∷ [])

  unfoldable pub tx_gauges : VideoSenderStats Number → String → String → List Gauge
  tx_gauges stat pc_id sess_id = gauges (tags_of pc_id sess_id (number_to_string stat.ssrc)) (
      ("pc.video.tx.packets_sent", number_to_string stat.packets_sent)
      ∷ ("pc.video.tx.bytes_sent", uint_to_string stat.bytes_sent)
      ∷ ("pc.video.tx.frames_encoded", number_to_string stat.frames_encoded)
      ∷ ("pc.video.tx.keyframes_encoded", number_to_string stat.key_frames_encoded)
      ∷ ("pc.video.tx.total_encode_time", number_to_string stat.total_encode_time)
      ∷ ("pc.video.tx.frame_width", number_to_string stat.frame_width)
      ∷ ("pc.video.tx.frame_height", number_to_string stat.frame_height)
      ∷ ("pc.video.tx.total_packet_send_delay", number_to_string stat.total_packet_send_delay)
      ∷ ("pc.video.tx.remote_jitter", number_to_string stat.remote_jitter)
      ∷ ("pc.video.tx.nack_count", number_to_string stat.nack_count)
      ∷ ("pc.video.tx.fir_count", number_to_string stat.fir_count)
      ∷ ("pc.video.tx.pli_count", number_to_string stat.pli_count)
      ∷ ("pc.video.tx.remote_packets_lost", number_to_string stat.remote_packets_lost)
      ∷ ("pc.video.tx.remote_round_trip_time", number_to_string stat.remote_round_trip_time)
      ∷ [])

  -- the calls in order
  unfoldable pub send_all : List Gauge → World → World
  send_all [] w = w
  send_all (g ∷ gs) w = send_all gs (gauge g.name g.value g.tags w)

  unfoldable pub write_video_rx_stats : VideoReceiverStats Number → String → String → World → World
  unfolding rx_gauges send_all
  write_video_rx_stats stat pc_id sess_id w = send_all (rx_gauges stat pc_id sess_id) w

  unfoldable pub write_video_tx_stats : VideoSenderStats Number → String → String → World → World
  unfolding tx_gauges send_all
  write_video_tx_stats stat pc_id sess_id w = send_all (tx_gauges stat pc_id sess_id) w
