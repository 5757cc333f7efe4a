-- ===== src/Examples/Upsc.antt =====
-- wolnut/monitor.py: one run of upsc, tried.
use wolnut_webui.Common.{String, none, refl}
use wolnut_webui.Common.Text.{strip}
use wolnut_webui.Common.Dict.{lookup, insert}
use wolnut_webui.Shutdown.Snapshot.{parse_ups_snapshot}
use wolnut_webui.Ups.{Run, finished, build_ups_target, get_ups_status}
use wolnut_webui.Ups.Failures.{IsFinished, parse_ups_snapshot-get_ups_status}
use wolnut_webui.Examples.{charge}

abbrev run : String → Run
run target = finished "ups.status: OB DISCHRG\nbattery.charge: 30\n"

parse_ups_snapshot-get_ups_status_example : IsFinished (run (build_ups_target "ups@host" none))
unfolding get_ups_status parse_ups_snapshot lookup insert strip
parse_ups_snapshot-get_ups_status_example =
    parse_ups_snapshot-get_ups_status charge "ups@host" none run refl
