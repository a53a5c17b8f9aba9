-- ===== src/Translation/Dutch.antt =====
-- packages/shared/src/i18n.ts: the dictionary NL.
-- The Dutch texts, `NL`.
use ovlive_platform.Prelude.{String, List, [], ◌∷◌}

abbrev pub nl : List (String × String)
nl =
    ("app.title", "OVLive — Realtime OV in Nederland")
    ∷ ("hud.inView", "{n} in beeld")
    ∷ ("settings.title", "Instellingen")
    ∷ ("settings.theme", "Kaartthema")
    ∷ ("settings.map", "Kaart")
    ∷ ("settings.stops", "Haltes tonen")
    ∷ ("settings.stopsHint", "Zichtbaar vanaf zoomniveau 14")
    ∷ ("settings.selection", "Selectie")
    ∷ ("settings.multi", "Meervoudige selectie")
    ∷ ("settings.multiHint", "Selecteer meerdere voertuigen tegelijk")
    ∷ ("settings.stopNums", "Haltenummers")
    ∷ ("settings.stopNumsHint", "Nummer de haltes van de gekozen rit")
    ∷ ("settings.appearance", "Weergave")
    ∷ ("appearance.system", "Systeem")
    ∷ ("appearance.light", "Licht")
    ∷ ("appearance.dark", "Donker")
    ∷ ("settings.language", "Taal")
    ∷ ("about.open", "Over OVLive")
    ∷ ("about.title", "Over OVLive")
    ∷ ("about.tagline", "Realtime openbaar vervoer in Nederland, op één kaart.")
    ∷ (
      "about.what",
      "OVLive laat bussen, trams, metro's, treinen en veerboten zien terwijl ze rijden — met hun lijn, bestemming, vertraging en volgende haltes. Kies een voertuig om het te volgen, of tik op een halte voor de vertrektijden.",
    )
    ∷ ("about.dataTitle", "Waar de data vandaan komt")
    ∷ (
      "about.data",
      "De posities komen live uit de open feeds van NDOV Loket en OVapi: KV6 voor bus, tram, metro en veerboot, NS InfoPlus voor de treinen. Lijnen, bestemmingen en dienstregeling komen uit de landelijke GTFS-feed. OVLive is een onafhankelijk project en staat niet in verbinding met de vervoerders.",
    )
    ∷ ("about.limitsTitle", "Wat de data niet belooft")
    ∷ (
      "about.limits",
      "De feeds zijn gratis en best-effort, en dus onvolledig: niet elk voertuig meldt een positie, van treinen is de vertraging vaak nog onbekend (dan staat er „geen vertragingsdata” in plaats van „op tijd”), en metro’s melden helemaal geen GPS — hun stip volgt de dienstregeling en verspringt van station naar station.",
    )
    ∷ ("about.support", "OVLive is gratis, zonder advertenties en zonder account.")
    ∷ ("about.supportAsk", "Draag je bij aan de serverkosten?")
    ∷ ("about.coffee", "Koop me een koffie")
    ∷ ("about.credit", "Data via NDOV Loket / OVapi · Kaart © OpenStreetMap-bijdragers")
    ∷ ("locate", "Mijn locatie tonen")
    ∷ ("filter.title", "Filter")
    ∷ ("filter.search", "Zoek lijn, voertuig of omloopnummer")
    ∷ ("search.searching", "Zoeken…")
    ∷ ("search.none", "Geen rijdende voertuigen gevonden")
    ∷ ("search.more", "{shown} van {total} resultaten")
    ∷ ("search.open", "Toon op de kaart")
    ∷ ("search.clear", "Zoekopdracht wissen")
    ∷ ("search.noDest", "Bestemming onbekend")
    ∷ ("type.bus", "Bus")
    ∷ ("type.tram", "Tram")
    ∷ ("type.metro", "Metro")
    ∷ ("type.train", "Trein")
    ∷ ("type.ferry", "Veerboot")
    ∷ ("type.vehicle", "Voertuig")
    ∷ ("follow.stop", "Stop met volgen")
    ∷ ("follow.following", "Wordt gevolgd")
    ∷ ("follow.follow", "Voertuig volgen")
    ∷ ("isolate.only", "Alleen selectie")
    ∷ ("isolate.showAll", "Toon alles")
    ∷ ("ended.title", "Deze rit is beëindigd")
    ∷ ("ended.sub", "Voertuig {veh} is niet langer live beschikbaar.")
    ∷ ("ended.nowRunning", "Dit voertuig rijdt nu:")
    ∷ ("ended.viewCurrent", "Toon huidige rit")
    ∷ ("ended.noReplacement", "Dit voertuig is momenteel niet actief op een andere rit.")
    ∷ ("detail.open", "Eigen pagina")
    ∷ ("detail.openTitle", "Open dit voertuig op een eigen pagina (nieuw tabblad)")
    ∷ ("detail.back", "Terug naar de kaart")
    ∷ ("detail.notLive", "Dit voertuig rijdt nu niet")
    ∷ ("detail.notLiveSub", "Voertuig {id} is op dit moment niet live beschikbaar.")
    ∷ ("atStop.banner", "Nu bij een halte")
    ∷ ("atStop.badge", "Bij halte")
    ∷ ("meta.operator", "Vervoerder")
    ∷ ("meta.vehicle", "Voertuig #")
    ∷ ("meta.block", "Omloop / blok")
    ∷ ("meta.journey", "Rit")
    ∷ ("stops.next", "Volgende haltes")
    ∷ ("stops.loading", "Laden…")
    ∷ ("stops.none", "Geen dienstregeling gevonden voor deze rit.")
    ∷ ("stops.nth", "Halte {n} van deze rit")
    ∷ ("stop.title", "Halte")
    ∷ ("stop.departures", "Vertrektijden")
    ∷ ("stop.none", "Geen vertrektijden in de komende 90 minuten.")
    ∷ ("stop.live", "Voertuig rijdt nu")
    ∷ ("stop.openVehicle", "Toon dit voertuig op de kaart")
    ∷ (
      "stop.liveHint", "Ritten met een groene stip rijden nu — tik erop om het voertuig te volgen.",
    )
    ∷ ("eta.now", "nu")
    ∷ ("eta.secs", "{n} sec")
    ∷ ("eta.minsSecs", "{n} min {s} sec")
    ∷ ("eta.hoursMinsSecs", "{h} u {n} min {s} sec")
    ∷ ("eta.title", "Verwachte aankomst om {time}")
    ∷ ("eta.titleDwell", "Verwachte aankomst om {arrive}, vertrek om {depart}")
    ∷ ("delay.onTime", "op tijd")
    ∷ ("delay.unknown", "geen vertragingsdata")
    ∷ ("speed.label", "Snelheid")
    ∷ ("speed.value", "{n} km/u")
    ∷ ("age.label", "Laatste update")
    ∷ ("age.now", "zojuist")
    ∷ ("age.secs", "{n} sec geleden")
    ∷ ("age.mins", "{n} min geleden")
    ∷ ("age.hours", "{n} uur geleden")
    ∷ ("age.at", "Laatste positiemelding om {time}")
    ∷ ("action.close", "Sluiten")
    ∷ ("action.removeSel", "Verwijderen uit selectie")
    ∷ ("action.share", "Link delen")
    ∷ ("action.copied", "Gekopieerd")
    ∷ ("action.resize", "Paneelhoogte aanpassen")
    ∷ []
