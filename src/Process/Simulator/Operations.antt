-- ===== src/Process/Simulator/Operations.antt =====
-- The operations of the simulated APIs (src/ska_pst_lmc/smrb/smrb_process_api.py,
-- receive/receive_process_api.py, dsp/dsp_process_api.py and stat/stat_process_api.py).
use ska_pst_lmc.Prelude.{true, false, Option}
use ska_pst_lmc.Effects.{◌>>◌, unless_raised}
use ska_pst_lmc.Process.Api.{push_resourced, push_configured, push_scanning, push_reset, Exception}
use ska_pst_lmc.Process.Reactions.{
  Operation, configure_beam, configure_scan, start_scan, deconfigure_beam, deconfigure_scan,
  stop_scan, abort, reset,
}
use ska_pst_lmc.Process.Simulator.{
  Simulated, tell, progressed, begin, finish, set_scanning, simulator_scans, stop_monitoring,
}

module _ {M : Type 0} where
  -- SMRB. `config` is what `configure_scan` of the simulator comes to.
  unfoldable pub smrb_simulate : Option Exception → Operation M → Simulated M
  unfolding stop_monitoring
  smrb_simulate config (configure_beam m) =
      begin >> progressed 50 >> tell (push_resourced true) >> finish
  smrb_simulate config deconfigure_beam =
      begin >> progressed 45 >> tell (push_resourced false) >> finish
  smrb_simulate config (configure_scan m) =
      begin
      >> progressed 42
      >> progressed 58
      >> unless_raised config
      >> tell (push_configured true)
      >> finish
  smrb_simulate config deconfigure_scan =
      begin
      >> progressed 20
      >> progressed 50
      >> progressed 80
      >> simulator_scans false
      >> tell (push_configured false)
      >> finish
  smrb_simulate config (start_scan m) =
      begin
      >> progressed 55
      >> simulator_scans true
      >> tell (push_scanning true)
      >> set_scanning true
      >> finish
  smrb_simulate config stop_scan =
      stop_monitoring
      >> begin
      >> progressed 37
      >> progressed 63
      >> simulator_scans false
      >> tell (push_scanning false)
      >> set_scanning false
      >> finish
  smrb_simulate config abort =
      stop_monitoring
      >> begin
      >> simulator_scans false
      >> progressed 59
      >> tell (push_scanning false)
      >> set_scanning false
      >> finish
  smrb_simulate config reset =
      stop_monitoring >> begin >> progressed 37 >> progressed 63 >> tell push_reset >> finish

  -- RECV. `config` is what `configure_scan` of the simulator comes to.
  unfoldable pub recv_simulate : Option Exception → Operation M → Simulated M
  unfolding stop_monitoring
  recv_simulate config (configure_beam m) =
      begin >> progressed 33 >> progressed 66 >> tell (push_resourced true) >> finish
  recv_simulate config deconfigure_beam =
      begin >> progressed 50 >> tell (push_resourced false) >> finish
  recv_simulate config (configure_scan m) =
      begin
      >> progressed 30
      >> progressed 60
      >> unless_raised config
      >> tell (push_configured true)
      >> finish
  recv_simulate config deconfigure_scan =
      begin
      >> progressed 31
      >> progressed 89
      >> simulator_scans false
      >> tell (push_configured false)
      >> finish
  recv_simulate config (start_scan m) =
      begin
      >> progressed 27
      >> progressed 69
      >> simulator_scans true
      >> tell (push_scanning true)
      >> set_scanning true
      >> finish
  recv_simulate config stop_scan =
      stop_monitoring
      >> begin
      >> progressed 32
      >> progressed 88
      >> simulator_scans false
      >> tell (push_scanning false)
      >> set_scanning false
      >> finish
  recv_simulate config abort =
      stop_monitoring
      >> begin
      >> progressed 60
      >> tell (push_scanning false)
      >> set_scanning false
      >> simulator_scans false
      >> finish
  recv_simulate config reset =
      stop_monitoring
      >> begin
      >> progressed 47
      >> tell push_reset
      >> simulator_scans false
      >> finish

  -- DSP. `config` is what `configure_scan` of the simulator comes to.
  unfoldable pub dsp_simulate : Option Exception → Operation M → Simulated M
  unfolding stop_monitoring
  dsp_simulate config (configure_beam m) =
      begin >> progressed 42 >> tell (push_resourced true) >> finish
  dsp_simulate config deconfigure_beam =
      begin >> progressed 48 >> tell (push_resourced false) >> finish
  dsp_simulate config (configure_scan m) =
      begin
      >> progressed 35
      >> progressed 81
      >> unless_raised config
      >> tell (push_configured true)
      >> finish
  dsp_simulate config deconfigure_scan =
      begin
      >> progressed 22
      >> progressed 56
      >> progressed 76
      >> simulator_scans false
      >> tell (push_configured false)
      >> finish
  dsp_simulate config (start_scan m) =
      begin
      >> progressed 59
      >> simulator_scans true
      >> tell (push_scanning true)
      >> set_scanning true
      >> finish
  dsp_simulate config stop_scan =
      stop_monitoring
      >> begin
      >> progressed 31
      >> progressed 77
      >> simulator_scans false
      >> tell (push_scanning false)
      >> set_scanning false
      >> finish
  dsp_simulate config abort =
      stop_monitoring
      >> begin
      >> simulator_scans false
      >> progressed 64
      >> tell (push_scanning false)
      >> set_scanning false
      >> finish
  dsp_simulate config reset =
      stop_monitoring >> begin >> progressed 37 >> progressed 63 >> tell push_reset >> finish

  -- STAT. `config` is what `configure_scan` of the simulator comes to.
  unfoldable pub stat_simulate : Option Exception → Operation M → Simulated M
  unfolding stop_monitoring
  stat_simulate config (configure_beam m) =
      begin >> progressed 49 >> tell (push_resourced true) >> finish
  stat_simulate config deconfigure_beam =
      begin >> progressed 51 >> tell (push_resourced false) >> finish
  stat_simulate config (configure_scan m) =
      begin
      >> progressed 41
      >> progressed 59
      >> unless_raised config
      >> tell (push_configured true)
      >> finish
  stat_simulate config deconfigure_scan =
      begin
      >> progressed 22
      >> progressed 52
      >> progressed 82
      >> simulator_scans false
      >> tell (push_configured false)
      >> finish
  stat_simulate config (start_scan m) =
      begin
      >> progressed 54
      >> simulator_scans true
      >> tell (push_scanning true)
      >> set_scanning true
      >> finish
  stat_simulate config stop_scan =
      stop_monitoring
      >> begin
      >> progressed 38
      >> progressed 62
      >> simulator_scans false
      >> tell (push_scanning false)
      >> set_scanning false
      >> finish
  stat_simulate config abort =
      stop_monitoring
      >> begin
      >> simulator_scans false
      >> progressed 60
      >> tell (push_scanning false)
      >> set_scanning false
      >> finish
  stat_simulate config reset =
      stop_monitoring >> begin >> progressed 39 >> progressed 61 >> tell push_reset >> finish
