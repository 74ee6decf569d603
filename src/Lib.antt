-- ===== src/Lib.antt =====
-- Verification of sfizz, a player of SFZ instruments (directory sfizz).
--
-- The program. A file of opcodes describes regions: samples with the conditions under which they
-- sound. `Synth` reads the file, tells every region of each note and controller, starts a voice for
-- a region that answers, and mixes the blocks that the voices render. A region keeps switches that
-- the events so far have set (sfizz/Region.cpp). A voice (sfizz/Voice.cpp) plays one region from a
-- trigger to its end, by an ADSR envelope for the amplitude and linear envelopes for what
-- controllers move. Callbacks of the audio thread and calls that change the instrument keep out of
-- each other's way by two atomic flags (sfizz/AtomicGuard.h).
--
-- The files.
--   Base, Float          shared names, lists over the native numbers, integers; `float` as a record
--                        of operations, over which all theorems are stated.
--   Range, CcMap         sfizz/Range.h and sfizz/CCMap.h.
--   Simd                 the scalar loops of sfizz/SIMDHelpers.h: a span is the list of its values,
--                        and an operation takes the old values of the spans that it writes.
--   Sse                  sfizz/SIMDSSE.cpp: the intrinsics as a record of functions with laws, the
--                        loop that the operations share over addresses and rows in Sse, and the
--                        operations in Spans and Sums. An access behind a span gives `none`.
--   SimdDummy            sfizz/SIMDDummy.cpp, the scalar versions under the names of the vector ones.
--   Buffer               sfizz/Buffer.h over a heap of blocks; `none` is undefined behaviour.
--   AudioBuffer          sfizz/AudioBuffer.h: channels as lists; new memory is a parameter.
--   AudioSpan            sfizz/AudioSpan.h: addresses of channels in one memory.
--   MidiState            sfizz/MidiState.h; the clock is an argument.
--   HistoricalBuffer     sfizz/HistoricalBuffer.h.
--   StringView, NoteName sfizz/StringViewHelpers.h and `readNoteValue` of sfizz/SfzHelpers.cpp.
--   Opcode               sfizz/Opcode.h and sfizz/Opcode.cpp, with `absl::SimpleAtoi` and
--                        `absl::SimpleAtof` as parameters.
--   Region               sfizz/Region.h, sfizz/Defaults.h and sfizz/EGDescription.h in Parts and
--                        Defaults; the events of sfizz/Region.cpp in Triggers, what a voice reads
--                        of it in Gain, and `parseOpcode` in Parse: tables of labels
--                        with what they do, selected by hash as the source's switch does.
--   Callback             sfizz/AtomicGuard.h and its use in sfizz/Synth.cpp, as a step relation on
--                        the two flags and the places of two threads, with the guards and
--                        disablers that are entered inside another.
--   Envelope             sfizz/ADSREnvelope.cpp and sfizz/LinearEnvelope.cpp.
--   FilePool             sfizz/FilePool.cpp, over a file system and sound files that are parameters;
--                        in Handles the pointers that pool and voices share, as steps of threads.
--   OnePoleFilter        sfizz/OnePoleFilter.h.
--   Parser               sfizz/Parser.cpp, over matches of the regular expressions, streams and
--                        paths that are parameters. It runs on the depth to which files include
--                        others; with the guard against recursive includes on,
--                        a depth above the number of files that exist is enough.
--   Voice                sfizz/Voice.cpp: events in Events, Start and their theorems, what fills a
--                        block from a sample or a generator in Filling, and `renderBlock` in
--                        Rendering.
--   Synth                sfizz/Synth.cpp: the choice of a voice in Voices, notes and controllers in
--                        Events, what the parser calls in Headers, `loadSfzFile` in Loading,
--                        `renderBlock` in Rendering, the constructors in Construction, and
--                        sequences of calls, each after the end of the one before, in Lifecycle.
--                        A region is named by its place and a voice by its number, where the source
--                        has pointers.
--   Examples             concrete inputs for the theorems.
--
-- The model. A function of the source is a function with its name in snake case; a member function
-- takes the object's record and returns it as the call leaves it. Counters of notes and of samples
-- are not bounded, and narrowing conversions to 8 and 32 bits are written out where the source has
-- them. Loops are recursions over the lists that they pass through; the loop of `loadSfzFile`, which
-- drops regions at the end of its list, and the pass of the garbage thread run on the count of their
-- rounds, and theorems show that the count of regions or of pointers is enough.
--
-- Not modelled: the matching of regular expressions, the rounding of floats, the ordering of atomic
-- accesses, and the copies of other libraries.
-- There is always memory for the temporary buffers of the voices and of the synth, though not for a
-- Buffer on its own. A block that is larger than the temporary spans of a voice, which have no
-- frames before `setSamplesPerBlock`, and a block size of zero, which frees the buffers and keeps
-- the pointers, are undefined behaviour in the source: the sequences of calls in Lifecycle then give
-- `none`. Other undefined behaviour of the source is not told apart from a result: a negative
-- duration of the envelope in `getBlock`, where the model has 0 for it, and a position in front of a
-- sample or behind it, where the value read is 0.
-- `absl::c_sort`, the random distributions, the clock, the number readers and the file system are
-- arguments of the definitions that use them.
pub mod Base
pub mod Float
pub mod Range
pub mod CcMap
pub mod Simd
pub mod SimdDummy
pub mod Sse
pub mod Buffer
pub mod AudioBuffer
pub mod AudioSpan
pub mod MidiState
pub mod HistoricalBuffer
pub mod StringView
pub mod NoteName
pub mod Opcode
pub mod Region
pub mod Callback
pub mod Envelope
pub mod FilePool
pub mod Voice
pub mod Parser
pub mod OnePoleFilter
pub mod Synth
pub mod Examples
