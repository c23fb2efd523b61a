-- ===== src/Examples/Sip.antt =====
-- An answer of an opus call, an offer that lists PCMU, G722 and opus, and the pacer of three sessions.
use swarmdialer.Prelude.{Bool, false, ℕ, ◌≡◌, refl, true, none, some, [], ◌∷◌, arith}
use swarmdialer.Text.{Bytes, bytes}
use swarmdialer.Sdp.{Codec, ulaw, opus, end_lines, build_sdp, lines}
use swarmdialer.Sdp.Parse.{scan_all, parse_sdp_codec, sdp_wants_media}
use swarmdialer.Pacer.{
  Pacer, start, add_session, remove_session, put_running, IsPaced, started, after_add, after_remove,
  Reach-IsPaced,
}
use swarmdialer.Sdp.Lines.{no_space-IsWord}
use swarmdialer.Sdp.RoundTrip.{parse_sdp_codec-build_sdp}
use swarmdialer.Sdp.Negotiation.{IsOffered, parse_sdp_codec-IsOffered}

abbrev ip : Bytes
ip = bytes "10.0.0.1"

parse_sdp_codec-build_sdp_example :
    (parse_sdp_codec (build_sdp ip 20_000 true opus 107) (some ulaw) ≡ some (opus, 107))
    × (sdp_wants_media (build_sdp ip 20_000 true opus 107) ≡ true)
parse_sdp_codec-build_sdp_example =
    parse_sdp_codec-build_sdp ip 20_000 true opus 107 (some ulaw) (no_space-IsWord _ _ refl)
      (omega arith)

abbrev offer : Bytes
offer = end_lines (
    bytes "v=0"
    ∷ bytes "m=audio 4000 RTP/AVP 0 9 107 101"
    ∷ bytes "a=rtpmap:107 opus/48000/2"
    ∷ bytes "a=rtpmap:101 telephone-event/8000"
    ∷ [])

parse_sdp_codec-IsOffered_example :
    ((x : Codec × ℕ)
      → parse_sdp_codec offer (some opus) ≡ some x
      → IsOffered
          (scan_all (lines offer) (record { order = []; rtpmaps = [] })).rtpmaps
          (scan_all (lines offer) (record { order = []; rtpmaps = [] })).order
          x
        × ((p : Codec) (n : ℕ)
            → some opus ≡ some p
            → IsOffered
                (scan_all (lines offer) (record { order = []; rtpmaps = [] })).rtpmaps
                (scan_all (lines offer) (record { order = []; rtpmaps = [] })).order
                (p, n)
            → x.0 ≡ p))
    × (parse_sdp_codec offer (some opus) ≡ none
        → (x : Codec × ℕ)
        → ¬ IsOffered
            (scan_all (lines offer) (record { order = []; rtpmaps = [] })).rtpmaps
            (scan_all (lines offer) (record { order = []; rtpmaps = [] })).order
            x)
parse_sdp_codec-IsOffered_example = parse_sdp_codec-IsOffered offer (some opus)

-- The preferred codec is taken with the offer's payload type, and else the first.
preferred_test : parse_sdp_codec offer (some opus) ≡ some (opus, 107)
unfolding parse_sdp_codec end_lines
preferred_test = refl

first_test : parse_sdp_codec offer none ≡ some (ulaw, 0)
unfolding parse_sdp_codec end_lines
first_test = refl

-- Two sessions start, the first one stops, and a third starts.
abbrev paced : Pacer
paced = add_session 7 (remove_session 5 (add_session 6 (add_session 5 start)))

abbrev running : ℕ → Bool
running =
    put_running 7 true (put_running 5 false (put_running 6 true (put_running 5 true (λ s. false))))

Reach-IsPaced_example : IsPaced running paced
unfolding add_session remove_session
Reach-IsPaced_example = Reach-IsPaced running paced (
    after_add 7 _ _ refl (after_remove 5 _ _ (after_add 6 _ _ refl (after_add 5 _ _ refl started))))
