-- ===== src/Translation/English.antt =====
-- packages/shared/src/i18n.ts: the dictionary EN.
-- The English texts, `EN`.
use ovlive_platform.Prelude.{String, List, [], ◌∷◌}

abbrev pub en : List (String × String)
en =
    ("app.title", "OVLive — Realtime NL transit")
    ∷ ("hud.inView", "{n} in view")
    ∷ ("settings.title", "Settings")
    ∷ ("settings.theme", "Map theme")
    ∷ ("settings.map", "Map")
    ∷ ("settings.stops", "Show stops")
    ∷ ("settings.stopsHint", "Visible from zoom level 14")
    ∷ ("settings.selection", "Selection")
    ∷ ("settings.multi", "Multi-select")
    ∷ ("settings.multiHint", "Select several vehicles at once")
    ∷ ("settings.stopNums", "Stop numbers")
    ∷ ("settings.stopNumsHint", "Number the selected trip's stops")
    ∷ ("settings.appearance", "Appearance")
    ∷ ("appearance.system", "System")
    ∷ ("appearance.light", "Light")
    ∷ ("appearance.dark", "Dark")
    ∷ ("settings.language", "Language")
    ∷ ("about.open", "About OVLive")
    ∷ ("about.title", "About OVLive")
    ∷ ("about.tagline", "Realtime public transport in the Netherlands, on one map.")
    ∷ (
      "about.what",
      "OVLive shows buses, trams, metros, trains and ferries while they run — their line, destination, delay and next stops. Pick a vehicle to follow it, or tap a stop for its departures.",
    )
    ∷ ("about.dataTitle", "Where the data comes from")
    ∷ (
      "about.data",
      "Positions come live from the open NDOV Loket and OVapi feeds: KV6 for bus, tram, metro and ferry, NS InfoPlus for trains. Lines, destinations and timetables come from the national GTFS feed. OVLive is an independent project and is not affiliated with the operators.",
    )
    ∷ ("about.limitsTitle", "What the data doesn’t promise")
    ∷ (
      "about.limits",
      "The feeds are free and best-effort, and therefore incomplete: not every vehicle reports a position, a train’s delay is often not known yet (it then reads “no delay data” rather than “on time”), and metros report no GPS at all — their dot follows the timetable and hops from station to station.",
    )
    ∷ ("about.support", "OVLive is free, has no ads and needs no account.")
    ∷ ("about.supportAsk", "Care to chip in for the server bill?")
    ∷ ("about.coffee", "Buy me a coffee")
    ∷ ("about.credit", "Data via NDOV Loket / OVapi · Map © OpenStreetMap contributors")
    ∷ ("locate", "Show my location")
    ∷ ("filter.title", "Filter")
    ∷ ("filter.search", "Search line, vehicle or omloop #")
    ∷ ("search.searching", "Searching…")
    ∷ ("search.none", "No vehicles running match")
    ∷ ("search.more", "{shown} of {total} results")
    ∷ ("search.open", "Show on the map")
    ∷ ("search.clear", "Clear search")
    ∷ ("search.noDest", "Destination unknown")
    ∷ ("type.bus", "Bus")
    ∷ ("type.tram", "Tram")
    ∷ ("type.metro", "Metro")
    ∷ ("type.train", "Train")
    ∷ ("type.ferry", "Ferry")
    ∷ ("type.vehicle", "Vehicle")
    ∷ ("follow.stop", "Stop following")
    ∷ ("follow.following", "Following")
    ∷ ("follow.follow", "Follow vehicle")
    ∷ ("isolate.only", "Only selected")
    ∷ ("isolate.showAll", "Show all")
    ∷ ("ended.title", "This trip has ended")
    ∷ ("ended.sub", "Vehicle {veh} is no longer available live.")
    ∷ ("ended.nowRunning", "This vehicle is now running:")
    ∷ ("ended.viewCurrent", "View current trip")
    ∷ ("ended.noReplacement", "This vehicle isn't currently active on another trip.")
    ∷ ("detail.open", "Own page")
    ∷ ("detail.openTitle", "Open this vehicle on its own page (new tab)")
    ∷ ("detail.back", "Back to the map")
    ∷ ("detail.notLive", "This vehicle isn't running now")
    ∷ ("detail.notLiveSub", "Vehicle {id} isn't available live at the moment.")
    ∷ ("atStop.banner", "Currently at a stop")
    ∷ ("atStop.badge", "At stop")
    ∷ ("meta.operator", "Operator")
    ∷ ("meta.vehicle", "Vehicle #")
    ∷ ("meta.block", "Omloop / block")
    ∷ ("meta.journey", "Journey")
    ∷ ("stops.next", "Next stops")
    ∷ ("stops.loading", "Loading…")
    ∷ ("stops.none", "No schedule matched for this trip.")
    ∷ ("stops.nth", "Stop {n} of this trip")
    ∷ ("stop.title", "Stop")
    ∷ ("stop.departures", "Departures")
    ∷ ("stop.none", "No departures in the next 90 minutes.")
    ∷ ("stop.live", "Vehicle is running now")
    ∷ ("stop.openVehicle", "Show this vehicle on the map")
    ∷ ("stop.liveHint", "Trips with a green dot are running now — tap one to follow the vehicle.")
    ∷ ("eta.now", "now")
    ∷ ("eta.secs", "{n}s")
    ∷ ("eta.minsSecs", "{n} min {s}s")
    ∷ ("eta.hoursMinsSecs", "{h} h {n} min {s}s")
    ∷ ("eta.title", "Expected arrival at {time}")
    ∷ ("eta.titleDwell", "Expected arrival at {arrive}, departure at {depart}")
    ∷ ("delay.onTime", "on time")
    ∷ ("delay.unknown", "no delay data")
    ∷ ("speed.label", "Speed")
    ∷ ("speed.value", "{n} km/h")
    ∷ ("age.label", "Last update")
    ∷ ("age.now", "just now")
    ∷ ("age.secs", "{n}s ago")
    ∷ ("age.mins", "{n} min ago")
    ∷ ("age.hours", "{n} h ago")
    ∷ ("age.at", "Last position report at {time}")
    ∷ ("action.close", "Close")
    ∷ ("action.removeSel", "Remove from selection")
    ∷ ("action.share", "Share link")
    ∷ ("action.copied", "Copied")
    ∷ ("action.resize", "Resize panel")
    ∷ []
