-- ===== src/Lib.antt =====
-- clint.py, the style checker that this repository runs over its C code, and
-- mymalloc/opentuner_run.py, which searches for the best parameters of the allocator.
--
-- A run is a list of events in order: a call of the callback `error` (ParseNolintSuppressions and the
-- checks raise them) or a line added to the NOLINT suppressions. The error handler of `Lint` decides
-- which events are printed, counts them and writes them. A check is a function from the lines that it
-- reads, and its own state, to the events that it raises and its new state. A Python exception is a
-- value of the result type: `none`, or a constructor of its own.
--
-- The files, with the part of clint.py that each models:
--   Base           shared names, Boolean tests and list lemmas
--   Regex          the module `re` as clint.py uses it; Cache: Match and Search (373-387)
--   Str            the string methods of Python that clint.py calls
--   Lint           _CppLintState, NOLINT, _ShouldPrintError and Error (153-218, 298-371, 515-638, 792-849)
--   Includes       _IncludeState (286-512) and FilesBelongToSameModule (2948-3000);
--                  Used: CheckForIncludeWhatYouUse (2890-2945, 3003-3122);
--                  Classify, Line: _ClassifyInclude and CheckIncludeLine (225-251, 2292-2473)
--   FunctionSize   _FunctionState and CheckForFunctionLengths (641-694, 1598-1668)
--   Comments       multi-line comments (889-930)
--   Cleanse        CleansedLines and CloseExpression (851-1030)
--   Style          CheckStyle and what it calls (256-283, 1517-1580, 1701-1996, 2022-2289)
--   Language       CheckLanguage (2532-2822) and CheckCStyleCast (2825-2828)
--   Paths          the functions of os.path that clint.py calls; Dict: dicts with texts for keys
--   FileInfo       the parts of a file name (702-789), Repository: RepositoryName (712-759)
--   FileChecks     copyright, UTF-8, newline at the end (1033-1043, 1144-1178)
--   HeaderGuard    CheckForHeaderGuard (1066-1141); Variable: GetHeaderGuardCPPVariable (1046-1063)
--   LineChecks     checks of one line (1181-1288, 1583-1595, 1671-1698, 1999-2019, 3128-3147)
--   Classes        _ClassInfo, _ClassState, CheckForNonStandardConstructs (1291-1514)
--   Brackets       _GetTextInside (2476-2529)
--   CommandLine    ParseArguments, PrintUsage and PrintCategories (3300-3371)
--   Process        ProcessLine, ProcessFileData (3150-3229); Files: ProcessFile (3231-3297); Main: main
--                  (3374-3389); Log: an account of a run that keeps no state; Silenced: NOLINT
--   Tuner          mymalloc/opentuner_run.py
--   Tests          runs at concrete inputs
--
-- A file's checks raise events and may end by an exception; `Process.Files` resets the suppressions,
-- hands the events to `Error`, and `Process.Main` goes on with the state that they leave. CheckStyle and
-- CheckLanguage reach the run as a record of functions (`Rules`), which `Process.Outside` fills with
-- those of `Style` and `Language`. What the file system holds, os.linesep, getopt, int and the module
-- unicodedata are parameters.
--
-- The tuner keeps the best accuracy of its runs and the commands that gave it. A run is a function
-- from the configuration and the program that opentuner calls for it; runs that go on in parallel are
-- a sequence in the order in which they take the lock. Numbers are a parameter (`Numbers`).
--
-- A text is a list of code points. Loops that do not recur on a list take fuel: the removal of
-- multi-line comments one round for each line and one more, a repetition in a pattern one round for
-- each character left, the halving of a number the number itself, and the digits of a number one
-- round more than the number; the climb from a directory takes a round for each character of its
-- path and one more, and the loop of CheckBraces a round for each line above and two more. Theorems
-- about them show that this is enough.
--
-- Numbers are natural numbers: a negative verbosity is not modelled. Methods that consult Unicode
-- tables (lower, isalnum) are written for ASCII letters. The order in which a dict is read is that in
-- which its keys were added.
pub mod Base
pub mod Regex
pub mod Str
pub mod Style
pub mod Language
pub mod Lint
pub mod Includes
pub mod Comments
pub mod Brackets
pub mod FunctionSize
pub mod HeaderGuard
pub mod Classes
pub mod Cleanse
pub mod CommandLine
pub mod FileChecks
pub mod LineChecks
pub mod Dict
pub mod Paths
pub mod FileInfo
pub mod Process
pub mod Tuner
pub mod Tests
